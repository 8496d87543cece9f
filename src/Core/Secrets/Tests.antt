-- ===== src/Core/Secrets/Tests.antt =====
-- Secrets in a keychain and in a vault that is sealed by its passphrase itself.
use role_n.Prelude.{
  String, ◌≡◌, refl, true, false, none, some, [], ◌∷◌, if◌then◌else◌, ◌==◌, ==_refl, string_eq,
  arith,
}
use role_n.Prelude.Dict.{lookup}
use role_n.Core.Secrets.{
  Secrets, Age, Environment, Reach, Stores, env_var_name, forced_vault, set_secret, get_secret,
}
use role_n.Core.Secrets.Stored.{Opens, get_secret-set_secret}

abbrev Sealed : Type 0
Sealed = String × Secrets

abbrev age : Age Sealed
age = record {
  encrypt = λ pw m. (pw, m);
  decrypt = λ pw blob. if blob.0 == pw then some blob.1 else none;
}

abbrev env : Environment
env = record { var = λ name. none; vault_password = some "pw"; secrets_backend = none }

abbrev unlocked : Reach
unlocked = record {
  keychain_set = true;
  keychain_get = true;
  keychain_delete = true;
  vault_save = true;
}

abbrev locked : Reach
locked = record unlocked { keychain_set = false }

abbrev new_vault : Stores Sealed
new_vault = record { keychain = []; vault = none }

age-Opens : Opens age
age-Opens pw m = ground (arith, ==_refl pw)

get_secret-set_secret_example :
    get_secret age env unlocked "provider-kimi"
      (set_secret age env locked "provider-kimi" "k" new_vault).1
    ≡ some "k"
unfolding forced_vault lookup set_secret
get_secret-set_secret_example =
    get_secret-set_secret age env age-Opens locked unlocked "provider-kimi" "k" new_vault
      "provider-kimi" refl refl refl refl refl

abbrev old_key : Stores Sealed
old_key = record { keychain = ("provider-kimi", "old") ∷ []; vault = none }

-- A keychain that cannot be written but can be read hides the new secret behind the old one.
old_key_stays :
    (set_secret age env locked "provider-kimi" "new" old_key).0 ≡ true
    × (get_secret age env unlocked "provider-kimi"
          (set_secret age env locked "provider-kimi" "new" old_key).1
        ≡ some "old")
unfolding set_secret get_secret
old_key_stays = (refl, refl)

-- Two keys that differ in a sign have one variable of the environment.
one_variable : env_var_name "provider-my.llm" ≡ env_var_name "provider-my-llm"
unfolding env_var_name
one_variable = refl
