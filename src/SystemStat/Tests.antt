-- ===== src/SystemStat/Tests.antt =====
-- src/system_stat.cpp: runs on samples of the interfaces.
use dnsmeter.SystemStat.{Network, Interface, add_network}

abbrev first : Network
first = record { bytes = 1000; packets = 10; errs = 0; drop = 1 }

abbrev growth : Network
growth = record { bytes = 64; packets = 1; errs = 0; drop = 0 }

abbrev before : Interface
before = record { name = "eth0"; receive = first; transmit = first }

abbrev after : Interface
after = record { name = "eth0"; receive = add_network first growth; transmit = growth }
