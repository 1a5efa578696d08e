-- ===== src/OrderedArray/Contents.antt =====
-- What an ordered array holds: the slots that are in use.
use ahk_main.Base.{List, take}
use ahk_main.OrderedArray.{OrderedArray}

abbrev pub contents {ℓ κ} : {M : Type ℓ} {A : Type κ} → OrderedArray M A → List A
contents o = take o.size o.array
