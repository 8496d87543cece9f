-- ===== src/Providers/Registry.antt =====
-- rolen-providers/src/registry.rs: the list of the registered providers. A provider is in the form of
-- rolen-core/src/types.rs.
use role_n.Prelude.{
  ℕ, String, Bool, true, false, not, Option, none, some, List, [], ◌∷◌, if◌then◌else◌, eqb, ◌==◌,
  string_eq, length, ◌≡◌, refl, arith, ◌∙◌, ==_iff,
}
use role_n.Prelude.Keyed.{
  find_key, change_key, retain_not, has_key, UniqueKeys, is_found, find_key-change_key,
  find_key-retain_not, length-retain_not, change_key-UniqueKeys, retain_not-UniqueKeys,
}
use role_n.Core.Pricing.{ProviderType}

pub data AuthKind : Type 0 where
  key oauth : AuthKind

pub record TunnelSpec : Type 0 where
  pub user : String
  pub host : String
  pub port : ℕ
  pub remote_host : String
  pub remote_port : ℕ
  pub local_port : ℕ
  pub identity_file : Option String

pub record Model : Type 0 where
  pub id : String
  pub context_tokens : Option ℕ
  pub vision : Bool
  pub tools : Bool
  pub streaming : Bool
  pub manual : Bool

pub record Provider : Type 0 where
  pub id : String
  pub ptype : ProviderType
  pub auth : AuthKind
  pub tunnel : Option TunnelSpec
  pub endpoint : Option String
  pub cli_path : Option String
  pub key_ref : Option String
  pub models : List Model
  pub suspended : Bool
  pub quota_url : Option String
  pub quota_json_path : Option String

abbrev pub id_of : Provider → String
id_of p = p.id

unfoldable pub get_provider : String → List Provider → Option Provider
unfolding find_key
get_provider id reg = find_key id_of id reg

unfoldable pub upsert : Provider → List Provider → List Provider
unfolding change_key
upsert provider reg = change_key id_of provider.id (λ _. provider) provider reg

-- `retain`, and whether something is gone.
unfoldable pub remove_provider : String → List Provider → Bool × List Provider
unfolding retain_not
remove_provider id reg =
    let left = retain_not id_of id reg in (not (eqb (length left) (length reg)), left)

unfoldable pub set_suspended : String → Bool → List Provider → Bool × List Provider
set_suspended id suspended [] = (false, [])
set_suspended id suspended (p ∷ reg) =
    let rest = set_suspended id suspended reg in
    if p.id == id then (true, record p { suspended = suspended } ∷ reg) else (rest.0, p ∷ rest.1)

abbrev pub suspend : Bool → Option Provider → Option Provider
suspend b none = none
suspend b (some p) = some (record p { suspended = b })

get_provider-set_suspended :
    (id : String) (b : Bool) (reg : List Provider) (j : String)
    → (get_provider j (set_suspended id b reg).1
        ≡ (if id == j then suspend b (get_provider j reg) else get_provider j reg))
      × ((set_suspended id b reg).0 ≡ is_found id_of (get_provider id reg))
unfolding get_provider set_suspended find_key
get_provider-set_suspended id b [] j = ground arith
get_provider-set_suspended id b (p ∷ reg) j =
    ground
      (arith, ==_iff id j, ==_iff p.id id, ==_iff p.id j, get_provider-set_suspended id b reg j)

has_key-set_suspended :
    (id : String) (b : Bool) (reg : List Provider) (j : String)
    → has_key id_of j (set_suspended id b reg).1 ≡ has_key id_of j reg
unfolding set_suspended
has_key-set_suspended id b [] j = refl
has_key-set_suspended id b (p ∷ reg) j = ground (arith, has_key-set_suspended id b reg j)

set_suspended-UniqueKeys :
    (id : String) (b : Bool) (reg : List Provider)
    → UniqueKeys id_of reg
    → UniqueKeys id_of (set_suspended id b reg).1
unfolding set_suspended
set_suspended-UniqueKeys id b [] u = tt
set_suspended-UniqueKeys id b (p ∷ reg) (f, u) =
    ground (arith, f, has_key-set_suspended id b reg p.id, set_suspended-UniqueKeys id b reg u)

pub get_provider-upsert :
    (p : Provider) (reg : List Provider) (j : String)
    → get_provider j (upsert p reg) ≡ (if p.id == j then some p else get_provider j reg)
unfolding get_provider upsert
get_provider-upsert p reg j =
    find_key-change_key id_of p.id (λ _. p) p reg j refl (λ _ _. refl)
    ∙ ground (arith, find_key id_of p.id reg)

-- The registry as a map from ids to providers: a provider that is put in is found under its id, one
-- that is removed is not, one that is suspended or resumed has only that changed, and the other
-- providers are as they were; and `remove` and `set_suspended` say whether there was a provider. No
-- operation makes two providers have one id.
pub registry_lem :
    (p : Provider) (id : String) (b : Bool) (reg : List Provider) (j : String)
    → UniqueKeys id_of reg
    → (get_provider j (upsert p reg) ≡ (if p.id == j then some p else get_provider j reg))
      × (get_provider j (remove_provider id reg).1 ≡ (if id == j then none else get_provider j reg))
      × (get_provider j (set_suspended id b reg).1
          ≡ (if id == j then suspend b (get_provider j reg) else get_provider j reg))
      × ((remove_provider id reg).0 ≡ is_found id_of (get_provider id reg))
      × ((set_suspended id b reg).0 ≡ is_found id_of (get_provider id reg))
      × UniqueKeys id_of (upsert p reg)
      × UniqueKeys id_of (remove_provider id reg).1
      × UniqueKeys id_of (set_suspended id b reg).1
unfolding get_provider upsert remove_provider
registry_lem p id b reg j u = (
  get_provider-upsert p reg j,
  find_key-retain_not id_of id j reg,
  (get_provider-set_suspended id b reg j).0,
  (length-retain_not id_of id reg).1,
  (get_provider-set_suspended id b reg j).1,
  change_key-UniqueKeys id_of p.id (λ _. p) p reg refl (λ _ _. refl) u,
  retain_not-UniqueKeys id_of id reg u,
  set_suspended-UniqueKeys id b reg u,
)
