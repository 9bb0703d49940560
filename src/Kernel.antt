-- ===== src/Kernel.antt =====
-- What sel4cp.h uses of libsel4: error codes, capability rights and the message info word.
use se_l4cp_poc.Prelude.{ℕ, ◌+◌, ◌*◌, ◌/◌, ◌%◌, ◌^◌}

abbrev pub sel4_no_error : ℕ
sel4_no_error = 0

abbrev pub sel4_delete_first : ℕ
sel4_delete_first = 8

-- `seL4_CapRights_new`
abbrev pub cap_rights_new : (grant_reply grant read write : ℕ) → ℕ
cap_rights_new grant_reply grant read write =
    (grant_reply % 2) * 8 + (grant % 2) * 4 + (read % 2) * 2 + write % 2

abbrev pub sel4_read_write : ℕ
sel4_read_write = cap_rights_new 0 0 1 1

abbrev pub sel4_all_rights : ℕ
sel4_all_rights = cap_rights_new 1 1 1 1

abbrev pub sel4_can_read : ℕ
sel4_can_read = cap_rights_new 0 0 1 0

-- `seL4_MessageInfo_new`: label in bits 12 to 63, then capsUnwrapped, extraCaps and length
unfoldable pub message_info_new : (label caps_unwrapped extra_caps length : ℕ) → ℕ
message_info_new label caps_unwrapped extra_caps length =
    (label % 2 ^ 52) * 2 ^ 12
    + (caps_unwrapped % 8) * 2 ^ 9
    + (extra_caps % 4) * 2 ^ 7
    + length % 2 ^ 7

unfoldable pub message_info_get_label : ℕ → ℕ
message_info_get_label info = (info / 2 ^ 12) % 2 ^ 52

unfoldable pub message_info_get_length : ℕ → ℕ
message_info_get_length info = info % 2 ^ 7
