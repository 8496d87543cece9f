-- ===== src/Core/Secrets/Stored.antt =====
-- What is read after a secret was stored or deleted, in secrets.rs.
use role_n.Prelude.{
  String, ◌≡◌, Bool, true, false, not, ◌||◌, Option, none, some, if◌then◌else◌, ◌==◌, ==_iff,
  string_eq, arith, Option-cases, inl, inr,
}
use role_n.Prelude.Dict.{lookup, insert, remove, lookup-insert, lookup-remove}
use role_n.Core.Secrets.{
  Secrets, Age, Environment, Reach, Stores, env_var_name, raw_password, forced_vault, load_map,
  save_map, vault_set, vault_get, vault_delete, into_vault, set_secret, keychain_get, get_secret,
}

abbrev is_some : Option String → Bool
is_some none = false
is_some (some _) = true

-- What was sealed under a passphrase is opened with it.
abbrev pub Opens : {Blob : Type 0} → Age Blob → Type 0
Opens age = (pw : String) (m : Secrets) → age.decrypt pw (age.encrypt pw m) ≡ some m

module _ {Blob : Type 0} (age : Age Blob) (env : Environment) (opens : Opens age) where
  -- The map that a successful save has sealed.
  save_map-opens :
      (reach : Reach) (m : Secrets) (file : Option Blob)
      → (save_map age env reach m file).0 ≡ true
      → load_map age env (save_map age env reach m file).1 ≡ some m
  unfolding save_map
  save_map-opens reach m file h = elim (Option-cases (raw_password env)) [
    | inl e ↦ absurd (ground (arith, e, h))
    | inr (pw, e) ↦ ground (arith, e, h, opens pw m)
  ]

  vault_get-vault_set :
      (reach : Reach) (k value : String) (file : Option Blob) (j : String)
      → (vault_set age env reach k value file).0 ≡ true
      → vault_get age env j (vault_set age env reach k value file).1
        ≡ (if k == j then some value else vault_get age env j file)
  unfolding vault_set vault_get
  vault_get-vault_set reach k value file j h = elim (Option-cases (load_map age env file)) [
    | inl e ↦ absurd (ground (arith, e, h))
    | inr (m, e) ↦
        let saved : (save_map age env reach (insert k value m) file).0 ≡ true =
          ground (arith, e, h) in
        ground
          (arith, e, save_map-opens reach (insert k value m) file saved, lookup-insert k j value m)
  ]

  vault_get-vault_delete :
      (reach : Reach) (k : String) (file : Option Blob) (j : String)
      → (vault_delete age env reach k file).0 ≡ true
      → vault_get age env j (vault_delete age env reach k file).1
        ≡ (if k == j then none else vault_get age env j file)
  unfolding vault_delete vault_get
  vault_get-vault_delete reach k file j h = elim (Option-cases (load_map age env file)) [
    | inl e ↦ absurd (ground (arith, e, h))
    | inr (m, e) ↦
        let saved : (save_map age env reach (remove k m) file).0 ≡ true = ground (arith, e, h) in
        ground (arith, e, save_map-opens reach (remove k m) file saved, lookup-remove k j m)
  ]

  -- No old entry of the keychain hides what goes to the vault.
  abbrev pub Unhidden : Reach → String → Stores Blob → Type 0
  Unhidden set k s =
      (forced_vault env || set.keychain_set || not (is_some (lookup k s.keychain))) ≡ true

  -- A secret that was stored is read back, wherever it was stored, and a secret of another key is read
  -- as before. It is supposed that no variable of the environment is set for either key, that the
  -- keychain can be read, and that it has no old entry for the key if the secret went to the vault.
  pub get_secret-set_secret :
      (set get : Reach) (k value : String) (s : Stores Blob) (j : String)
      → env.var (env_var_name k) ≡ none
      → env.var (env_var_name j) ≡ none
      → get.keychain_get ≡ true
      → Unhidden set k s
      → (set_secret age env set k value s).0 ≡ true
      → get_secret age env get j (set_secret age env set k value s).1
        ≡ (if k == j then some value else get_secret age env get j s)
  unfolding set_secret get_secret into_vault keychain_get
  get_secret-set_secret set get k value s j vk vj readable unhidden h = ground (
    arith,
    vk,
    vj,
    readable,
    unhidden,
    h,
    ==_iff k j,
    vault_get-vault_set set k value s.vault j,
    lookup-insert k j value s.keychain,
  )
