-- ===== src/Config/Layers.antt =====
-- internal/config/config.go, `resolveProfile`: which layer gives each setting of a profile.
use redash_wire.Common.{
  ℕ, ap, Bool, Option, none, some, List, [], ◌∷◌, ◌≡◌, refl, sym, Option-cases, inl, inr,
}
use redash_wire.Common.Text.{Bytes}
use redash_wire.Config.{
  Config, FileConfig, Outside, Result, ok, defaults, default_username, default_password,
  with_profiles, overlay, overlay_bool, overlay_file, overlay_profile, layered, resolve_named,
  resolve_profile, profile_of,
}

-- The first text that is not empty.
abbrev pub first_set : List Bytes → Bytes
first_set [] = []
first_set ([] ∷ texts) = first_set texts
first_set ((c ∷ text) ∷ texts) = c ∷ text

-- The first flag that is written.
abbrev pub first_written : List (Option Bool) → Option Bool
first_written [] = none
first_written (none ∷ flags) = first_written flags
first_written (some b ∷ flags) = some b

-- What a profile of a file comes to under a name.
abbrev pub effective : Outside → FileConfig → Config → Bytes → Config
effective o fc p name = record {
  profile = name;
  postgres_listen_addr = first_set (p.postgres_listen_addr ∷ fc.postgres_listen_addr ∷ []);
  my_sql_listen_addr = first_set (p.my_sql_listen_addr ∷ fc.my_sql_listen_addr ∷ []);
  redash_url = o.expand_env p.redash_url;
  api_key = o.expand_env p.api_key;
  username = first_set (p.username ∷ fc.username ∷ defaults.username ∷ []);
  password = first_set (p.password ∷ fc.password ∷ defaults.password ∷ []);
  poll_interval = first_set (p.poll_interval ∷ fc.poll_interval ∷ defaults.poll_interval ∷ []);
  poll_timeout = first_set (p.poll_timeout ∷ fc.poll_timeout ∷ defaults.poll_timeout ∷ []);
  read_only = first_written (p.read_only ∷ fc.read_only ∷ []);
}

overlay_empty : (a : Bytes) → overlay [] a ≡ a
unfolding overlay
overlay_empty [] = refl
overlay_empty (c ∷ a) = refl

overlay_two : (a b : Bytes) → overlay (overlay [] b) a ≡ first_set (a ∷ b ∷ [])
unfolding overlay
overlay_two [] [] = refl
overlay_two [] (c ∷ b) = refl
overlay_two (c ∷ a) b = refl

overlay_default : (a b : Bytes) (d : Bytes) → overlay (overlay d b) a ≡ first_set (a ∷ b ∷ d ∷ [])
unfolding overlay
overlay_default [] [] [] = refl
overlay_default [] [] (c ∷ d) = refl
overlay_default [] (e ∷ b) d = refl
overlay_default (e ∷ a) b d = refl

overlay_flags :
    (a b : Option Bool) → overlay_bool (overlay_bool none b) a ≡ first_written (a ∷ b ∷ [])
unfolding overlay_bool
overlay_flags none none = refl
overlay_flags none (some b) = refl
overlay_flags (some a) b = refl

layered-effective :
    (o : Outside) (fc : FileConfig) (name : Bytes) (p : Config)
    → layered o fc name p ≡ effective o fc p name
unfolding layered overlay_file overlay_profile
layered-effective o fc name p =
    rw
      (
        overlay_two p.postgres_listen_addr fc.postgres_listen_addr,
        overlay_two p.my_sql_listen_addr fc.my_sql_listen_addr,
        overlay_empty p.redash_url,
        overlay_empty p.api_key,
        overlay_default p.username fc.username default_username,
        overlay_default p.password fc.password default_password,
        overlay_default p.poll_interval fc.poll_interval defaults.poll_interval,
        overlay_default p.poll_timeout fc.poll_timeout defaults.poll_timeout,
        overlay_flags p.read_only fc.read_only,
      )
      refl

resolve_named-effective :
    (o : Outside) (fc : FileConfig) (name : Bytes) (cfg : Config)
    → resolve_named o fc name ≡ ok cfg
    → (p : Config) × (profile_of fc.profiles name ≡ some p) × (cfg ≡ effective o fc p name)
unfolding resolve_named
resolve_named-effective o fc [] cfg h = absurd cc
resolve_named-effective o fc (c ∷ name) cfg h =
    elim (Option-cases (profile_of fc.profiles (c ∷ name))) [
      | inl n ↦ absurd (cc (rw (resolve_named, n) at h))
      | inr (p, e) ↦ (
        p,
        e,
        (let same : ok (layered o fc (c ∷ name) p) ≡ ok cfg = rw (resolve_named, e) at h in
            cc (layered-effective o fc (c ∷ name) p)),
      )
    ]

-- A profile that the file has is resolved.
pub resolve_named_found :
    (o : Outside) (fc : FileConfig) (c : ℕ) (name : Bytes) (p : Config)
    → profile_of fc.profiles (c ∷ name) ≡ some p
    → resolve_named o fc (c ∷ name) ≡ ok (effective o fc p (c ∷ name))
unfolding resolve_named
resolve_named_found o fc c name p e =
    rw (resolve_named, e) (ap ok (layered-effective o fc (c ∷ name) p))

with_profiles_ok :
    (ps : List (Bytes × Config)) (r : Result Config) (cfg : Config)
    → with_profiles ps r ≡ ok cfg
    → r ≡ ok cfg
unfolding with_profiles
with_profiles_ok [] r cfg h = absurd cc
with_profiles_ok (p ∷ ps) r cfg h = h

overlay-first_set : (a b : Bytes) → overlay b a ≡ first_set (a ∷ b ∷ [])
unfolding overlay
overlay-first_set [] [] = refl
overlay-first_set [] (c ∷ b) = refl
overlay-first_set (c ∷ a) b = refl

-- The profile that is resolved is the one named or, without a name, the default, and the file has it.
-- Each of its settings is the profile's own, else the file's, else the default; its URL and its key
-- are the profile's with the variables expanded.
resolve_profile-effective :
    (o : Outside) (fc : FileConfig) (name : Bytes) (cfg : Config)
    → resolve_profile o fc name ≡ ok cfg
    → (p : Config) × (profile_of fc.profiles (first_set (name ∷ fc.default_profile ∷ [])) ≡ some p)
      × (cfg ≡ effective o fc p (first_set (name ∷ fc.default_profile ∷ [])))
unfolding resolve_profile
resolve_profile-effective o fc name cfg h = rw (sym (overlay-first_set name fc.default_profile)) (
    resolve_named-effective o fc (overlay fc.default_profile name) cfg
      (with_profiles_ok fc.profiles (resolve_named o fc (overlay fc.default_profile name)) cfg h))
