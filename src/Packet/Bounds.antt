-- ===== src/Packet/Bounds.antt =====
-- src/packet.cpp: which bytes of memory the operations on a packet write.
use dnsmeter.Base.{ℕ, ◌≤◌, ◌≡◌}
use dnsmeter.Packet.{Packet}

-- The memory behind the buffer is the same.
abbrev SameBehind : Packet → Packet → Type 0
SameBehind p q = (i : ℕ) → 4096 ≤ i → q.buffer i ≡ p.buffer i
