-- ===== src/Providers/Catalog.antt =====
-- `merge_models` and `refresh_models` of rolen-providers/src/client.rs: the models of a provider after
-- a discovery. What a provider lists is a parameter.
use role_n.Prelude.{
  ℕ, String, false, Option, none, some, List, [], ◌∷◌, ◌++◌, if◌then◌else◌, ◌==◌, ==_iff, string_eq,
  length, filter, ◌≡◌, refl, arith, ◌∙◌, inl, inr, Bool-cases,
}
use role_n.Prelude.Keyed.{find_key, has_key, UniqueKeys, is_found, append-UniqueKeys}
use role_n.Providers.{Disk, holds, load, Writes, save}
use role_n.Providers.Registry.{Provider, Model, get_provider, upsert}

abbrev pub model_id : Model → String
model_id m = m.id

-- The loop over the models that were added by hand.
keep_manual : List Model → List Model → List Model
keep_manual [] out = out
keep_manual (m ∷ existing) out =
    keep_manual existing (if has_key model_id m.id out then out else out ++ m ∷ [])

unfoldable pub merge_models : List Model → List Model → List Model
unfolding keep_manual
merge_models existing discovered = keep_manual (filter (λ m. m.manual) existing) discovered

-- The number of models, or an error; and the registry on disk.
pub data Refreshed : Type 0 where
  not_loaded not_found not_listed not_saved : Refreshed
  refreshed : ℕ → Refreshed

abbrev with_models : List Model → Provider → Provider
with_models models p = record p { models = models }

module _ (disk_ops : Writes (List Provider)) (list_models : Provider → Option (List Model)) where
  store : Provider → List Provider → Disk (List Provider) → Refreshed × Disk (List Provider)
  unfolding upsert
  store updated reg disk =
      let (ok, disk') = save disk_ops (upsert updated reg) disk in
      (if ok then refreshed (length updated.models) else not_saved, disk')

  merged :
      Provider
      → Option (List Model)
      → List Provider
      → Disk (List Provider)
      → Refreshed × Disk (List Provider)
  unfolding store merge_models
  merged p none reg disk = (not_listed, disk)
  merged p (some discovered) reg disk =
      store (with_models (merge_models p.models discovered) p) reg disk

  found : Option Provider → List Provider → Disk (List Provider) → Refreshed × Disk (List Provider)
  unfolding merged
  found none reg disk = (not_found, disk)
  found (some p) reg disk = merged p (list_models p) reg disk

  from_loaded :
      String → Option (List Provider) → Disk (List Provider) → Refreshed × Disk (List Provider)
  unfolding found get_provider
  from_loaded id none disk = (not_loaded, disk)
  from_loaded id (some reg) disk = found (get_provider id reg) reg disk

  unfoldable pub refresh_models : String → Disk (List Provider) → Refreshed × Disk (List Provider)
  unfolding from_loaded
  refresh_models id disk = from_loaded id (load [] disk) disk

abbrev pub or_else : Option Model → Option Model → Option Model
or_else none b = b
or_else (some a) b = some a

find_key-append :
    (id : String) (xs : List Model) (m : Model)
    → find_key model_id id (xs ++ m ∷ [])
      ≡ or_else (find_key model_id id xs) (if m.id == id then some m else none)
unfolding find_key
find_key-append id [] m = refl
find_key-append id (x ∷ xs) m = ground (arith, find_key-append id xs m)

has_key-find_key :
    (id : String) (xs : List Model)
    → has_key model_id id xs ≡ is_found model_id (find_key model_id id xs)
unfolding find_key
has_key-find_key id [] = refl
has_key-find_key id (x ∷ xs) = ground (arith, has_key-find_key id xs)

find_key-keep_manual :
    (id : String) (manual out : List Model)
    → find_key model_id id (keep_manual manual out)
      ≡ or_else (find_key model_id id out) (find_key model_id id manual)
unfolding keep_manual find_key
find_key-keep_manual id [] out = ground arith
find_key-keep_manual id (m ∷ manual) out = elim (Bool-cases (has_key model_id m.id out)) [
  | inl e ↦ rw e (
      find_key-keep_manual id manual out
      ∙ ground (arith, e, ==_iff m.id id, has_key-find_key m.id out))
  | inr e ↦
      rw e
        (find_key-keep_manual id manual (out ++ m ∷ []) ∙ ground (arith, find_key-append id out m))
]

keep_manual-UniqueKeys :
    (manual out : List Model)
    → UniqueKeys model_id out
    → UniqueKeys model_id (keep_manual manual out)
unfolding keep_manual
keep_manual-UniqueKeys [] out u = u
keep_manual-UniqueKeys (m ∷ manual) out u = elim (Bool-cases (has_key model_id m.id out)) [
  | inl e ↦ rw e (keep_manual-UniqueKeys manual out u)
  | inr e ↦
      rw e (keep_manual-UniqueKeys manual (out ++ m ∷ []) (append-UniqueKeys model_id out m u e))
]

-- After a discovery a model is what was discovered under its id, or else the entry that was added by
-- hand; entries that were themselves discovered earlier and are not listed any more are gone. A list
-- with each model once stays one, however many entries were added by hand.
pub merge_models_lem :
    (existing discovered : List Model) (id : String)
    → UniqueKeys model_id discovered
    → (find_key model_id id (merge_models existing discovered)
        ≡ or_else
            (find_key model_id id discovered)
            (find_key model_id id (filter (λ m. m.manual) existing)))
      × UniqueKeys model_id (merge_models existing discovered)
unfolding merge_models
merge_models_lem existing discovered id u = (
  find_key-keep_manual id (filter (λ m. m.manual) existing) discovered,
  keep_manual-UniqueKeys (filter (λ m. m.manual) existing) discovered u,
)

module _ (disk_ops : Writes (List Provider)) (list_models : Provider → Option (List Model)) where
  -- What a refresh says of the registry.
  abbrev pub Refresh : String → List Provider → Refreshed × Disk (List Provider) → Type 0
  Refresh id reg (refreshed n, disk') =
      (p : Provider) × (models : List Model) × (get_provider id reg ≡ some p)
      × (list_models p ≡ some models)
      × (n ≡ length (merge_models p.models models))
      × (disk' ≡ holds (upsert (with_models (merge_models p.models models) p) reg))
  Refresh id reg (not_found, disk') = (get_provider id reg ≡ none) × (disk' ≡ holds reg)
  Refresh id reg (not_listed, disk') =
      (p : Provider) × (get_provider id reg ≡ some p) × (list_models p ≡ none) × (disk' ≡ holds reg)
  Refresh id reg (not_saved, disk') =
      (reg' : List Provider) × (disk_ops.write_ok reg' ≡ false)
      × (disk' ≡ disk_ops.torn reg' (holds reg))
  Refresh id reg (not_loaded, disk') = ⊥

  merged-Refresh :
      (id : String) (reg : List Provider) (p : Provider) (listed : Option (List Model))
      → get_provider id reg ≡ some p
      → list_models p ≡ listed
      → Refresh id reg (merged disk_ops list_models p listed reg (holds reg))
  unfolding merged store
  merged-Refresh id reg p none e l = (p, e, l, refl)
  merged-Refresh id reg p (some models) e l =
      let reg' = upsert (with_models (merge_models p.models models) p) reg in
      elim (Bool-cases (disk_ops.write_ok reg')) [
        | inl w ↦ rw w (p, models, e, l, refl, refl)
        | inr w ↦ rw w (reg', w, refl)
      ]

  found-Refresh :
      (id : String) (reg : List Provider) (o : Option Provider)
      → get_provider id reg ≡ o
      → Refresh id reg (found disk_ops list_models o reg (holds reg))
  unfolding found
  found-Refresh id reg none e = (e, refl)
  found-Refresh id reg (some p) e = merged-Refresh id reg p (list_models p) e refl

  -- A refresh of a provider stores its discovered models, merged with those added by hand, and says how
  -- many there are; it fails, with the registry as it was, for an unknown provider and for one that
  -- cannot be asked, so that a provider that is down loses no model; a failed write is reported.
  pub refresh_models_lem :
      (id : String) (reg : List Provider)
      → Refresh id reg (refresh_models disk_ops list_models id (holds reg))
  unfolding refresh_models from_loaded
  refresh_models_lem id reg = found-Refresh id reg (get_provider id reg) refl
