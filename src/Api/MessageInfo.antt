-- ===== src/Api/MessageInfo.antt =====
-- The message info word of libsel4, as `sel4cp_msginfo_new` and `sel4cp_msginfo_get_label` use it.
use se_l4cp_poc.Prelude.{ℕ, ◌^◌, ◌<◌, ◌≡◌, arith}
use se_l4cp_poc.Kernel.{message_info_new, message_info_get_label, message_info_get_length}
use se_l4cp_poc.Api.{msginfo_new, msginfo_get_label}

-- A label below 2^52 and a count below 2^7 are read back from the word that is made of them.
pub msginfo_get_label-msginfo_new :
    (label count : ℕ)
    → label < 2 ^ 52
    → count < 2 ^ 7
    → (msginfo_get_label (msginfo_new label count) ≡ label)
      × (message_info_get_length (msginfo_new label count) ≡ count)
unfolding msginfo_new msginfo_get_label message_info_new message_info_get_label
    message_info_get_length
msginfo_get_label-msginfo_new label count small short = (omega arith, omega arith)
