-- ===== src/Core/Pricing/Store.antt =====
-- What `resolve` of pricing.rs says after `set` and `clear`.
use role_n.Prelude.{Bool, true, false, Option, none, some, string_eq}
use role_n.Core.Pricing.{Rates}

module _ {F : Type 0} where
  abbrev is_some : Option (Rates F) → Bool
  is_some none = false
  is_some (some r) = true
