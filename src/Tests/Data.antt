-- ===== src/Tests/Data.antt =====
-- The data of the tests: a clock whose texts can be read back, assets, events and a config.
use Prim.Native.Char.{code}
use Prim.Native.String.{String}
use zee.Prelude.{ℕ, zero, suc, Bool, true, false, ◌≡◌, refl, Option, none, some, [], ◌∷◌, nat_eq}
use zee.Prelude.Time.{Instant, IsoTime}
use zee.Config.{AssetProfile, Config}
use zee.Events.{TrapEvent}

-- An instant as a sign for the zone and one mark for each microsecond.
abbrev marks : ℕ → String
marks zero = String.[]
marks (suc n) = String.◌∷◌ "u" (marks n)

abbrev marked : String → ℕ
marked String.[] = zero
marked (String.◌∷◌ c s) = suc (marked s)

marked-marks : (n : ℕ) → marked (marks n) ≡ n
marked-marks zero = refl
marked-marks (suc n) = rw (marked-marks n)

abbrev sign : Bool → String → String
sign true s = String.◌∷◌ "Z" s
sign false s = String.◌∷◌ "L" s

abbrev unary : Instant → String
unary t = sign t.aware (marks t.at)

abbrev from_unary : String → Option Instant
from_unary String.[] = none
from_unary (String.◌∷◌ c s) = some (record { at = marked s; aware = nat_eq (code c) b'Z' })

pub from_unary-sign :
    (b : Bool) (n : ℕ) → from_unary (sign b (marks n)) ≡ some (record { at = n; aware = b })
from_unary-sign true n = rw (marked-marks n)
from_unary-sign false n = rw (marked-marks n)

abbrev pub clock : IsoTime
clock = record {
  isoformat = unary;
  fromisoformat = from_unary;
  fromisoformat-isoformat = λ t. from_unary-sign t.aware t.at;
}

abbrev pub noon : Instant
noon = record { at = 12; aware = true }

abbrev pub laptop : AssetProfile
laptop = record {
  id = "laptop";
  type = "workstation";
  overnight_active = false;
  decoy_paths = "/srv/credentials.txt" ∷ "/srv/plan.docx" ∷ [];
  response_mode = "auto";
  cut_method = "egress";
}

abbrev pub server : AssetProfile
server = record laptop {
  id = "server";
  type = "server";
  response_mode = "notify";
  decoy_paths = "/srv/plan.docx" ∷ [];
}

abbrev pub armed : Config
armed = record { assets = laptop ∷ server ∷ []; dry_run = false; privsep_socket = none }

abbrev pub touch : TrapEvent
touch = record {
  source = "decoy_touch";
  confidence = "high";
  asset_id = "laptop";
  decoy_path = some "/srv/credentials.txt";
  detected_at = noon;
  detail = "modified";
  op_class = "change";
  decoy_ref = some "d-1";
}
