-- ===== src/Core/Secrets.antt =====
-- rolen-core/src/secrets.rs and rolen-core/src/vault.rs: where a secret is stored and read. The
-- environment, the keychain of the operating system and which of its calls succeed are parameters, and
-- so is the encryption of the vault, the library age.
pub mod Stored
mod Tests
use role_n.Prelude.{
  ℕ, ◌+◌, ◌-◌, String, Bool, true, false, not, ◌&&◌, ◌||◌, Option, none, some, List, [], ◌∷◌, ◌++◌,
  map, if◌then◌else◌, leb, ◌==◌, string_eq, nat_eq, list_eq, ◌≡◌,
}
use role_n.Prelude.Dict.{lookup, insert, remove}
use role_n.Core.Types.{Text}
use role_n.Core.Text.{codes, trim}

abbrev pub Secrets : Type 0
Secrets = List (String × String)

-- The sealing of a map under a passphrase; `decrypt` refuses another one.
pub record Age (Blob : Type 0) : Type 0 where
  pub encrypt : String → Secrets → Blob
  pub decrypt : String → Blob → Option Secrets

pub record Environment : Type 0 where
  pub var : Text → Option String
  -- `ROLEN_VAULT_PASSWORD` and `ROLEN_SECRETS_BACKEND`
  pub vault_password : Option String
  pub secrets_backend : Option Text

-- Which calls succeed, for one operation.
pub record Reach : Type 0 where
  pub keychain_set : Bool
  pub keychain_get : Bool
  pub keychain_delete : Bool
  pub vault_save : Bool

pub record Stores (Blob : Type 0) : Type 0 where
  pub keychain : Secrets
  pub vault : Option Blob

abbrev ascii_alphanumeric : ℕ → Bool
ascii_alphanumeric c = leb 48 c && leb c 57 || leb 65 c && leb c 90 || leb 97 c && leb c 122

abbrev sanitized : ℕ → ℕ
sanitized c =
    if not (ascii_alphanumeric c) then b'_' else (if leb 97 c && leb c 122 then c - 32 else c)

pub env_var_name : String → Text
env_var_name key_ref = codes "ROLEN_KEY_" ++ map sanitized (codes key_ref)

pub data Backend : Type 0 where
  os_keychain age_vault no_backend : Backend

abbrev ascii_lower : ℕ → ℕ
ascii_lower c = if leb 65 c && leb c 90 then c + 32 else c

-- `raw_password`: an empty password is none.
abbrev pub raw_password : Environment → Option String
raw_password env = elim env.vault_password [
  | none ↦ none
  | some pw ↦ if pw == "" then none else some pw
]

abbrev pub is_available : Environment → Bool
is_available env = elim (raw_password env) [ none ↦ false | some _ ↦ true ]

-- `parse_backend`
pub parse_backend : Text → Option Backend
unfolding trim
parse_backend s =
    let name = map ascii_lower (trim s) in
    if name == codes "vault" || name == codes "age" || name == codes "file"
    then some age_vault
    else (if name == codes "keychain" || name == codes "os" || name == codes "keyring"
        then some os_keychain
        else none)

abbrev is_vault : Option Backend → Bool
is_vault (some age_vault) = true
is_vault _ = false

-- `forced_backend() == Some(Backend::Vault)`
unfoldable pub forced_vault : Environment → Bool
unfolding parse_backend
forced_vault env = elim env.secrets_backend [ none ↦ false | some s ↦ is_vault (parse_backend s) ]

module _ {Blob : Type 0} (age : Age Blob) (env : Environment) where
  -- `load_map`: the empty map if there is no file, `none` for an error.
  abbrev opened : Option String → Blob → Option Secrets
  opened none blob = none
  opened (some pw) blob = age.decrypt pw blob

  abbrev pub load_map : Option Blob → Option Secrets
  load_map none = some []
  load_map (some blob) = opened (raw_password env) blob

  -- `save_map`: a failed write leaves the old file, since the rename comes last.
  save_map : Reach → Secrets → Option Blob → Bool × Option Blob
  save_map reach m file = elim (raw_password env) [
    | none ↦ (false, file)
    | some pw ↦ if reach.vault_save then (true, some (age.encrypt pw m)) else (false, file)
  ]

  unfoldable pub vault_set : Reach → String → String → Option Blob → Bool × Option Blob
  unfolding save_map insert
  vault_set reach key_ref value file = elim (load_map file) [
    | none ↦ (false, file)
    | some m ↦ save_map reach (insert key_ref value m) file
  ]

  unfoldable pub vault_get : String → Option Blob → Option String
  unfolding lookup
  vault_get key_ref file = elim (load_map file) [ none ↦ none | some m ↦ lookup key_ref m ]

  unfoldable pub vault_delete : Reach → String → Option Blob → Bool × Option Blob
  unfolding save_map remove
  vault_delete reach key_ref file = elim (load_map file) [
    | none ↦ (false, file)
    | some m ↦ save_map reach (remove key_ref m) file
  ]

  into_vault : Reach → String → String → Stores Blob → Bool × Stores Blob
  unfolding vault_set
  into_vault reach key_ref value s =
      let (ok, file) = vault_set reach key_ref value s.vault in (ok, record s { vault = file })

  -- Whether the secret is stored, and the stores after it.
  unfoldable pub set_secret : Reach → String → String → Stores Blob → Bool × Stores Blob
  unfolding into_vault forced_vault insert
  set_secret reach key_ref value s =
      if forced_vault env
      then into_vault reach key_ref value s
      else (if reach.keychain_set
          then (true, record s { keychain = insert key_ref value s.keychain })
          else (if is_available env then into_vault reach key_ref value s else (false, s)))

  -- An entry that is not there is an error of the keychain too.
  keychain_get : Reach → String → Secrets → Option String
  unfolding lookup
  keychain_get reach key_ref keychain = if reach.keychain_get then lookup key_ref keychain else none

  abbrev or_vault : Option String → String → Stores Blob → Option String
  or_vault (some value) key_ref s = some value
  or_vault none key_ref s = if is_available env then vault_get key_ref s.vault else none

  abbrev unless_var : Option String → Option String → Option String
  unless_var (some value) other = some value
  unless_var none other = other

  unfoldable pub get_secret : Reach → String → Stores Blob → Option String
  unfolding env_var_name forced_vault keychain_get vault_get
  get_secret reach key_ref s = unless_var (env.var (env_var_name key_ref)) (
      if forced_vault env
      then vault_get key_ref s.vault
      else or_vault (keychain_get reach key_ref s.keychain) key_ref s)

  -- Failures are not reported.
  unfoldable pub delete_secret : Reach → String → Stores Blob → Stores Blob
  unfolding forced_vault vault_delete remove
  delete_secret reach key_ref s =
      let keychain' =
        if not (forced_vault env) && reach.keychain_delete
        then remove key_ref s.keychain
        else s.keychain in
      let vault' = if is_available env then (vault_delete reach key_ref s.vault).1 else s.vault in
      record { keychain = keychain'; vault = vault' }
