-- ===== src/Hostnames/Clean.antt =====
-- What a host name from the network can hold, and how many an address can gather.
use efe_process_monitor.Common.{◌≤◌, ◌≡◌, true, length, all, list_eq, nat_eq, arith}
use efe_process_monitor.Common.Texts.{Text}
use efe_process_monitor.Hostnames.{is_host_byte, clean_hostname}

-- A name that is stored has at most 253 bytes, each of them a letter, a digit, a dot, a dash or an
-- underscore, whatever the packet held.
pub clean_hostname_plain :
    (s : Text) → (all is_host_byte (clean_hostname s) ≡ true) × (length (clean_hostname s) ≤ 253)
unfolding clean_hostname
clean_hostname_plain s = ground arith
