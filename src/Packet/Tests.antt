-- ===== src/Packet/Tests.antt =====
-- src/packet.cpp: runs on a packet.
use dnsmeter.Base.{◌+◌, ◌%◌, ◌≤◌, ◌<◌, ◌≡◌, ◌≢◌, refl, false, true, some, arith, net16}
use dnsmeter.Exceptions.{ok}
use dnsmeter.Pplib.Samples.{
  sample_strings, filling_resolver, zeros, ones, zeros-IsBytes, ones-IsBytes,
}
use dnsmeter.Checksum.{fold_complement}
use dnsmeter.Checksum.Laws.{fold_complement_lem}
use dnsmeter.Query.{find_type, rr_types, make_query, make_query_tokens, compile_query}
use dnsmeter.Packet.{
  Packet, new_packet, set_source, set_payload, set_payload_dns_query, size, ptr, update_checksums,
  use_source_from_pcap,
}
use dnsmeter.Packet.Fields.{IsValid, with_payload, new_packet-IsValid, size-total_length}
use dnsmeter.Packet.Valid.{IsChecksummed, IpChecks, update_checksums-IsChecksummed}
use dnsmeter.Packet.Sequence.{
  Reach, here, next, source, payload, ptr-Reach, use_source_from_pcap_stale,
}

abbrev fresh : Packet
fresh = new_packet zeros

fresh-IsValid : IsValid fresh
fresh-IsValid = new_packet-IsValid zeros zeros-IsBytes

fold_complement_lem_example :
    ((70000 + fold_complement 70000) % 65535 ≡ 0)
    × (fold_complement (70000 + fold_complement 70000) ≡ 0)
    × (fold_complement 70000 < 65536)
fold_complement_lem_example = fold_complement_lem 70000 (omega arith)

abbrev reached : Packet
reached = with_payload (set_source fresh 16777343 53) ones 0 5

carried : set_payload (set_source fresh 16777343 53) ones 0 5 ≡ ok reached
unfolding set_payload
carried = refl

reached-Reach : Reach fresh reached
reached-Reach =
    next (next here (source 16777343 53)) (payload ones 0 5 ones-IsBytes (omega arith) carried)

ptr-Reach_example : IsValid (ptr reached) × IsChecksummed (ptr reached)
ptr-Reach_example = ptr-Reach zeros zeros-IsBytes reached reached-Reach

size-total_length_example : (size fresh ≡ net16 fresh.buffer 2) × (size fresh ≤ 4096)
size-total_length_example = size-total_length fresh fresh-IsValid

abbrev overrun : Packet
overrun = with_payload fresh ones 0 4084

accepted :
    set_payload_dns_query sample_strings filling_resolver fresh "example.com MX" false ≡ ok overrun
unfolding set_payload_dns_query make_query make_query_tokens compile_query find_type
accepted = refl

known : find_type "MX" rr_types 0 ≡ some 2
unfolding find_type
known = refl

abbrev summed : Packet
summed = update_checksums fresh

summed-IpChecks : IpChecks summed.buffer
summed-IpChecks = (update_checksums-IsChecksummed fresh fresh-IsValid).ip

claimed : summed.chksum_valid ≡ true
unfolding update_checksums
claimed = refl

no_source : (net16 summed.buffer 12 + net16 summed.buffer 14) % 65535 ≡ 0
unfolding update_checksums new_packet
no_source = refl

differ :
    (net16 ones 26 + net16 ones 28) % 65535
    ≢ (net16 summed.buffer 12 + net16 summed.buffer 14) % 65535
differ e = absurd (omega (arith, no_source, e))

use_source_from_pcap_stale_example : ¬ IpChecks (ptr (use_source_from_pcap summed ones)).buffer
use_source_from_pcap_stale_example =
    use_source_from_pcap_stale summed ones ones-IsBytes claimed summed-IpChecks differ
