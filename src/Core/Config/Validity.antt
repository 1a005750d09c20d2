-- ===== src/Core/Config/Validity.antt =====
-- What a validated configuration guarantees (config.rs).
use Prim.Native.Char.{Char, code}
use duende.Prelude.{◌<◌, ◌≡◌, ◌≢◌, ◌↔◌, ◌⊎◌, refl, ◌∙◌, Bool, true, false, String, arith}
use duende.Prelude.Float.{F64}
use mathlib.Core.Path.{subst}
use duende.Core.Error.Laws.{>>=-eq-ok}
use duende.Core.Error.{Result, ok}
use duende.Core.Config.{
  DaemonConfig, is_empty, is_name_char, all_chars, validate, load, new, default_resources,
}

abbrev pub AllChars : (Char → Type 0) → String → Type 0
AllChars P String.[] = Unit {0}
AllChars P (String.◌∷◌ c s) = P c × AllChars P s

-- An alphanumeric character, '-' or '_'.
abbrev pub IsNameChar : (Char → Bool) → Char → Type 0
IsNameChar is_alphanumeric c = (is_alphanumeric c ≡ true) ⊎ ((code c ≡ 45) ⊎ (code c ≡ 95))

is_name_char_iff :
    (is_alphanumeric : Char → Bool) (c : Char)
    → (is_name_char is_alphanumeric c ≡ true) ↔ IsNameChar is_alphanumeric c
is_name_char_iff is_alphanumeric c = ground arith

all_chars_iff :
    (is_alphanumeric : Char → Bool) (s : String)
    → (all_chars (is_name_char is_alphanumeric) s ≡ true) ↔ AllChars (IsNameChar is_alphanumeric) s
all_chars_iff is_alphanumeric String.[] = (λ _. tt, λ _. refl)
all_chars_iff is_alphanumeric (String.◌∷◌ c s) =
    ground (arith, is_name_char_iff is_alphanumeric c, all_chars_iff is_alphanumeric s)

is_empty_iff : (s : String) → (is_empty s ≡ false) ↔ (s ≢ "")
is_empty_iff String.[] = (λ e. absurd (cc), λ n. absurd (n refl))
is_empty_iff (String.◌∷◌ c s) = (λ _ e. absurd (cc), λ _. refl)

module _ (f : F64) (is_alphanumeric : Char → Bool) where
  pub record IsValid (c : DaemonConfig f.Carrier) : Type 0 where
    pub named : c.name ≢ ""
    pub name_chars : AllChars (IsNameChar is_alphanumeric) c.name
    pub has_binary : c.binary_path ≢ ""
    pub has_memory : 0 < c.resources.memory_bytes
    pub quota_above : f.le c.resources.cpu_quota_percent (f.of_nat 0) ≡ false
    pub has_pids : 0 < c.resources.pids_max

  record Passes (c : DaemonConfig f.Carrier) : Type 0 where
    named : is_empty c.name ≡ false
    name_chars : all_chars (is_name_char is_alphanumeric) c.name ≡ true
    has_binary : is_empty c.binary_path ≡ false
    has_memory : 0 < c.resources.memory_bytes
    quota_above : f.le c.resources.cpu_quota_percent (f.of_nat 0) ≡ false
    has_pids : 0 < c.resources.pids_max

  validate_sound : (c : DaemonConfig f.Carrier) → validate f is_alphanumeric c ≡ ok tt → Passes c
  unfolding validate
  validate_sound c h = ground arith

  validate_complete : (c : DaemonConfig f.Carrier) → Passes c → validate f is_alphanumeric c ≡ ok tt
  unfolding validate
  validate_complete c v = ground arith

  Passes-IsValid : (c : DaemonConfig f.Carrier) → Passes c → IsValid c
  Passes-IsValid c p = record {
    named = (is_empty_iff c.name).0 p.named;
    name_chars = (all_chars_iff is_alphanumeric c.name).0 p.name_chars;
    has_binary = (is_empty_iff c.binary_path).0 p.has_binary;
    has_memory = p.has_memory;
    quota_above = p.quota_above;
    has_pids = p.has_pids;
  }

  IsValid-Passes : (c : DaemonConfig f.Carrier) → IsValid c → Passes c
  IsValid-Passes c v = record {
    named = (is_empty_iff c.name).1 v.named;
    name_chars = (all_chars_iff is_alphanumeric c.name).1 v.name_chars;
    has_binary = (is_empty_iff c.binary_path).1 v.has_binary;
    has_memory = v.has_memory;
    quota_above = v.quota_above;
    has_pids = v.has_pids;
  }

  -- A configuration passes the check exactly when its name is not empty and made of
  -- alphanumeric characters, hyphens and underscores, it has a binary path, its memory and
  -- process limits are above 0, and its CPU quota does not compare as at most 0.
  pub validate_iff :
      (c : DaemonConfig f.Carrier) → (validate f is_alphanumeric c ≡ ok tt) ↔ IsValid c
  validate_iff c =
      (λ h. Passes-IsValid c (validate_sound c h), λ v. validate_complete c (IsValid-Passes c v))

  -- A configuration that `load` returns is the one parsed from the file, and passes the check.
  pub load-IsValid :
      (read : String → Result String) (parse : String → Result (DaemonConfig f.Carrier))
      (path : String) (c : DaemonConfig f.Carrier)
      → load f is_alphanumeric read parse path ≡ ok c
      → (content : String) × (read path ≡ ok content) × (parse content ≡ ok c) × IsValid c
  unfolding load
  load-IsValid read parse path c h =
      let (content, readable, h₁) = >>=-eq-ok (read path) _ h in
      let (c', parsed, h₂) = >>=-eq-ok (parse content) _ h₁ in
      let (_, checked, h₃) = >>=-eq-ok (validate f is_alphanumeric c') _ h₂ in
      let same : c' ≡ c = cc (h₃) in
      (
        content,
        readable,
        parsed ∙ h₃,
        subst IsValid same (Passes-IsValid c' (validate_sound c' checked)),
      )

-- Whatever the quota's other comparisons say, one that does not compare as at most 0 (NaN is such
-- a value) passes the check of an otherwise default configuration with a valid name and path.
pub validate-nan :
    (f : F64) (is_alphanumeric : Char → Bool) (name path : String) (quota : f.Carrier)
    → is_empty name ≡ false
    → all_chars (is_name_char is_alphanumeric) name ≡ true
    → is_empty path ≡ false
    → f.le quota (f.of_nat 0) ≡ false
    → let c = new f name path in
      validate f is_alphanumeric
        (record c { resources = record (c.resources) { cpu_quota_percent = quota } })
      ≡ ok tt
unfolding validate new default_resources
validate-nan f is_alphanumeric name path quota n a p q = ground arith
