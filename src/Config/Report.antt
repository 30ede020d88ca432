-- ===== src/Config/Report.antt =====
-- internal/config/config.go, `LoadAll`: every profile of a file with what would stop it.
use mathlib.Core.List.{Perm}
use mathlib.Core.List.Perm
use redash_wire.Common.{
  Bool, true, false, Option, none, some, List, [], ◌∷◌, map, ◌∙◌, if◌then◌else◌, ◌≡◌, refl, All,
  All-map, All-intro, if_cases, Bool-cases, ap, Option-cases, inl, inr,
}
use redash_wire.Common.Text.{Bytes, less}
use redash_wire.Config.{
  Config, FileConfig, Outside, Fault, ConfigError, Result, ok, err, invalid, default_not_found,
  ◌>>=◌, with_profiles, profile_of, profile_names, insert_name, sort_names, resolve_profile,
  resolve_named, validate, checked, read_file, load, overlay,
}

-- A profile that is not resolved with its error, or its configuration with the faults of `Validate`.
pub data Report : Type 0 where
  unresolved : ConfigError → Report
  resolved : Config → List Fault → Report

pub record ProfileSummary : Type 0 where
  pub name : Bytes
  pub report : Report

pub record Summary : Type 0 where
  pub default_profile : Bytes
  pub profiles : List ProfileSummary

report_of : Outside → Result Config → Report
unfolding validate
report_of o (err e) = unresolved e
report_of o (ok cfg) = resolved cfg (validate o cfg)

-- One round of the loop of `LoadAll`.
unfoldable pub summary_of : Outside → FileConfig → Bytes → ProfileSummary
unfolding report_of resolve_profile
summary_of o fc n = record { name = n; report = report_of o (resolve_profile o fc n) }

is_none {ℓ} : {A : Type ℓ} → Option A → Bool
is_none none = true
is_none (some a) = false

-- A profile is named that the file does not have.
unfoldable pub missing : List (Bytes × Config) → Bytes → Bool
unfolding profile_of is_none
missing ps [] = false
missing ps (c ∷ cs) = is_none (profile_of ps (c ∷ cs))

unfoldable pub summarize : Outside → FileConfig → Result Summary
unfolding summary_of missing profile_names with_profiles
summarize o fc = with_profiles fc.profiles (
    if missing fc.profiles fc.default_profile
    then err (default_not_found fc.default_profile (profile_names fc.profiles))
    else ok (record {
      default_profile = fc.default_profile;
      profiles = map (summary_of o fc) (profile_names fc.profiles);
    }))

unfoldable pub load_all : Outside → Bytes → Result Summary
unfolding read_file summarize
load_all o path = read_file o path >>= summarize o

-- What a report says that `Load` does.
abbrev pub told : Report → Result Config
told (unresolved e) = err e
told (resolved cfg []) = ok cfg
told (resolved cfg (f ∷ fs)) = err (invalid cfg.profile (f ∷ fs))

IsError {ℓ} : {A : Type ℓ} → Result A → Type 0
IsError (ok a) = ⊥
IsError (err e) = Unit

-- A summary names the profiles of the file, each as often as the file does, and tells what `Load` does
-- for each; without one `Load` fails on the default profile.
unfoldable pub Agrees : Outside → Bytes → Result Summary → Type 0
unfolding IsError
Agrees o path (ok sum) =
    (fc : FileConfig) × (read_file o path ≡ ok fc)
    × (sum.default_profile ≡ fc.default_profile)
    × Perm (map (λ (s : ProfileSummary). s.name) sum.profiles) (map (λ p. p.0) fc.profiles)
    × All (λ s. load o path s.name ≡ told s.report) sum.profiles
Agrees o path (err e) = IsError (load o path [])

insert_name-Perm : (n : Bytes) (ms : List Bytes) → Perm (insert_name n ms) (n ∷ ms)
insert_name-Perm n [] = Perm.refl (n ∷ [])
insert_name-Perm n (m ∷ ms) = elim (Bool-cases (less m n)) [
  | inl l ↦ rw l (Perm.trans (Perm.cons m (insert_name-Perm n ms)) (Perm.swap n m ms))
  | inr k ↦ rw k (Perm.refl (n ∷ m ∷ ms))
]

sort_names-Perm : (ns : List Bytes) → Perm (sort_names ns) ns
sort_names-Perm [] = Perm.refl []
sort_names-Perm (n ∷ ns) =
    Perm.trans (insert_name-Perm n (sort_names ns)) (Perm.cons n (sort_names-Perm ns))

map-summary_of :
    (o : Outside) (fc : FileConfig) (ns : List Bytes)
    → map (λ (s : ProfileSummary). s.name) (map (summary_of o fc) ns) ≡ ns
unfolding summary_of
map-summary_of o fc [] = refl
map-summary_of o fc (n ∷ ns) = ap (◌∷◌ n) (map-summary_of o fc ns)

summary_of-Perm :
    (o : Outside) (fc : FileConfig)
    → Perm
        (map (λ (s : ProfileSummary). s.name) (map (summary_of o fc) (profile_names fc.profiles)))
        (map (λ p. p.0) fc.profiles)
unfolding profile_names
summary_of-Perm o fc = rw map-summary_of (sort_names-Perm (map (λ p. p.0) fc.profiles))

told_faults :
    (o : Outside) (cfg : Config) (fs : List Fault)
    → validate o cfg ≡ fs
    → checked o cfg ≡ told (resolved cfg fs)
unfolding checked
told_faults o cfg [] e = rw (checked, e) refl
told_faults o cfg (f ∷ fs) e = rw (checked, e) refl

told-report_of : (o : Outside) (r : Result Config) → (r >>= checked o) ≡ told (report_of o r)
unfolding report_of
told-report_of o (err e) = refl
told-report_of o (ok cfg) = told_faults o cfg (validate o cfg) refl

load-read_file :
    (o : Outside) (path name : Bytes) (fc : FileConfig)
    → read_file o path ≡ ok fc
    → load o path name ≡ (resolve_profile o fc name >>= checked o)
unfolding load
load-read_file o path name fc e = rw e refl

load-told :
    (o : Outside) (path : Bytes) (fc : FileConfig) (name : Bytes)
    → read_file o path ≡ ok fc
    → load o path name ≡ told (summary_of o fc name).report
unfolding summary_of
load-told o path fc name e =
    load-read_file o path name fc e ∙ told-report_of o (resolve_profile o fc name)

IsError-resolve_named :
    (o : Outside) (fc : FileConfig) (name : Bytes)
    → missing fc.profiles name ≡ true
    → IsError (resolve_named o fc name >>= checked o)
unfolding missing is_none resolve_named IsError
IsError-resolve_named o fc [] h = absurd cc
IsError-resolve_named o fc (c ∷ name) h = elim (Option-cases (profile_of fc.profiles (c ∷ name))) [
  | inl n ↦ rw (resolve_named, n) tt
  | inr (p, e) ↦ absurd (cc (rw (missing, e) at h))
]

IsError-with_profiles :
    (o : Outside) (ps : List (Bytes × Config)) (r : Result Config)
    → IsError (r >>= checked o)
    → IsError (with_profiles ps r >>= checked o)
unfolding with_profiles IsError
IsError-with_profiles o [] r h = tt
IsError-with_profiles o (p ∷ ps) r h = h

no_profiles-IsError :
    (o : Outside) (ps : List (Bytes × Config)) (r : Result Config)
    → ps ≡ []
    → IsError (with_profiles ps r >>= checked o)
unfolding with_profiles IsError
no_profiles-IsError o [] r h = tt
no_profiles-IsError o (p ∷ ps) r h = absurd cc

Agrees-with_profiles :
    (o : Outside) (path : Bytes) (ps : List (Bytes × Config)) (r : Result Summary)
    → (ps ≡ [] → IsError (load o path []))
    → Agrees o path r
    → Agrees o path (with_profiles ps r)
unfolding with_profiles Agrees IsError
Agrees-with_profiles o path [] r h k = h refl
Agrees-with_profiles o path (p ∷ ps) r h k = k

-- `Load` without a profile, for a file that is read.
load_default :
    (o : Outside) (path : Bytes) (fc : FileConfig)
    → read_file o path ≡ ok fc
    → load o path []
      ≡ (with_profiles fc.profiles (resolve_named o fc fc.default_profile) >>= checked o)
unfolding resolve_profile overlay
load_default o path fc e = load-read_file o path [] fc e

summarize-Agrees :
    (o : Outside) (path : Bytes) (fc : FileConfig)
    → read_file o path ≡ ok fc
    → Agrees o path (summarize o fc)
unfolding summarize summary_of Agrees
summarize-Agrees o path fc e =
    let named = resolve_named o fc fc.default_profile in
    Agrees-with_profiles o path fc.profiles _
      (λ n. rw (load_default o path fc e) (no_profiles-IsError o fc.profiles named n))
      (if_cases (Agrees o path) (missing fc.profiles fc.default_profile) _ _
        (λ m. rw (load_default o path fc e) (
          IsError-with_profiles o fc.profiles named
            (IsError-resolve_named o fc fc.default_profile m)))
        (λ _. (
          fc,
          e,
          refl,
          summary_of-Perm o fc,
          All-map (λ s. load o path s.name ≡ told s.report) (summary_of o fc)
              (profile_names fc.profiles)
              (All-intro _ (profile_names fc.profiles) (λ n. load-told o path fc n e)),
        )))

read-Agrees :
    (o : Outside) (path : Bytes) (r : Result FileConfig)
    → read_file o path ≡ r
    → Agrees o path (r >>= summarize o)
unfolding load IsError Agrees
read-Agrees o path (err e) h = rw (load, h) tt
read-Agrees o path (ok fc) h = summarize-Agrees o path fc h

-- For every file, a summary is of exactly the profiles of the file, in some order, with its default
-- profile, and tells of each what `Load` does: the same configuration or the same error. Where there is
-- no summary, `Load` without a profile fails as well.
pub load_all-Agrees : (o : Outside) (path : Bytes) → Agrees o path (load_all o path)
unfolding load_all
load_all-Agrees o path = read-Agrees o path (read_file o path) refl
