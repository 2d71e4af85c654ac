-- ===== src/Recovery/Names.antt =====
-- The fixed names of Zee's firewall rules (src/zee/responder/cut_full.py, cut_egress.py) and of the tools
-- that hold them (src/zee/recovery/restore.py).
use text.Mathlib.Text.{find?}
use zee.Prelude.{String, Bool, List, [], ◌∷◌, is_some}

abbrev pub sentinel_linux_nft_egress : String
sentinel_linux_nft_egress = "__zee_nft_egress_table__"

abbrev pub sentinel_macos_pfctl_egress : String
sentinel_macos_pfctl_egress = "__zee_pfctl_egress_anchor__"

abbrev pub pf_token_prefix : String
pf_token_prefix = "__zee_pf_enable_token__:"

abbrev pub zee_rule_tag : String
zee_rule_tag = "zee-egress-cut"

abbrev pub iptables : List String
iptables = "iptables" ∷ "iptables-legacy" ∷ "iptables-nft" ∷ []

abbrev pub ip6tables : List String
ip6tables = "ip6tables" ∷ "ip6tables-legacy" ∷ "ip6tables-nft" ∷ []

-- `part in msg`
abbrev pub within : String → String → Bool
within part msg = is_some (find? msg part)
