-- ===== src/Core/Config/Validate/Rules.antt =====
-- The rules of a configuration, as crates/hoike-core/src/config.rs states them to its user, and the tests
-- that decide them.
use hoike.Base.{
  ℕ, zero, suc, ◌≡◌, ◌≢◌, ◌↔◌, ◌⊎◌, refl, sym, ap, ◌∙◌, inl, inr, List, [], ◌∷◌, ◌++◌, Bool, true,
  false, not, ◌&&◌, ◌||◌, Bool-cases, Option-cases, subst, Option, none, some, some-injective,
  arith, All, beq_bytes, beq_bytes_iff,
}
use hoike.Base.Exists.{Has}
use hoike.Base.Float.{IsUnitFraction, f64_le-IsUnitFraction}
use hoike.Ahu.Verify.{is_none}
use hoike.Core.Storage.{FilePath}
use hoike.Core.Config.{CaConfig, SigningKey, demo, file, pkcs11, has_separator, is_unsafe}
use hoike.Core.Config.Validate.{
  starts_with, member, forward_ok, is_ml_dsa, is_demo_key, seal_ok, fraction_ok,
}
use hoike.Core.Config.Texts.{
  live, ecdsa_p256, ml_dsa_44, ml_dsa_65, ml_dsa_87, dual, sha256_only, sha1_only, https_prefix,
  http_prefix,
}

-- The name of a file in a directory.
pub record IsFileName (label : List ℕ) : Type 0 where
  pub nonempty : label ≢ []
  pub not_here : label ≢ b'.' ∷ []
  pub not_parent : label ≢ b'.' ∷ b'.' ∷ []
  pub no_separator : All (λ (b : ℕ). (b ≢ b'/') × (b ≢ b'\\')) label

-- The URL is https, or http where that is allowed.
abbrev pub IsAllowed : Bool → List ℕ → Type 0
IsAllowed insecure url =
    ((rest : List ℕ) × (url ≡ https_prefix ++ rest))
    ⊎ ((insecure ≡ true) × ((rest : List ℕ) × (url ≡ http_prefix ++ rest)))

abbrev pub IsForwardable : CaConfig → Type 0
IsForwardable ca = (url : List ℕ) → ca.forward_to ≡ some url → IsAllowed ca.forward_insecure url

-- Both halves of the seal pair, or neither with a demo key.
abbrev pub IsSealed : CaConfig → Type 0
IsSealed ca =
    ((key : FilePath) × (cert : FilePath) × (ca.seal_key ≡ some key) × (ca.seal_cert ≡ some cert))
    ⊎ ((ca.seal_key ≡ none) × (ca.seal_cert ≡ none) × (ca.signing_key ≡ some demo))

abbrev pub ml_dsa_algorithms : List (List ℕ)
ml_dsa_algorithms = ml_dsa_44 ∷ ml_dsa_65 ∷ ml_dsa_87 ∷ []

-- A known algorithm, which answers nonces live only if it is ECDSA, known CertIDs, and a fraction.
pub record IsAlgorithm (ca : CaConfig) : Type 0 where
  pub sig_alg : Has (ecdsa_p256 ∷ ml_dsa_algorithms) ca.sig_alg
  pub nonces : Has ml_dsa_algorithms ca.sig_alg → ca.nonce_policy ≢ live
  pub certid_compat : Has (dual ∷ sha256_only ∷ sha1_only ∷ []) ca.certid_compat
  pub max_age_fraction : IsUnitFraction ca.max_age_fraction

-- What is asked of a CA that this node signs for.
pub record CanSign (ca : CaConfig) : Type 0 where
  pub has_source : ca.has_source ≡ true
  pub keyed : (key : SigningKey) × (ca.signing_key ≡ some key)
  pub sealed : IsSealed ca

has_separator_iff :
    (label : List ℕ)
    → (has_separator label ≡ false) ↔ All (λ (b : ℕ). (b ≢ b'/') × (b ≢ b'\\')) label
has_separator_iff [] = (λ h. tt, λ a. refl)
has_separator_iff (b ∷ bs) =
    let (to, from) = has_separator_iff bs in
    (
      λ h. ((λ e. ground (arith, e), λ e. ground (arith, e)), to (ground arith)),
      λ a. ground (arith, from a.1, a.0.0, a.0.1),
    )

pub is_unsafe_iff : (label : List ℕ) → (is_unsafe label ≡ false) ↔ IsFileName label
is_unsafe_iff [] = (λ h. absurd (ground arith), λ n. absurd (n.nonempty refl))
is_unsafe_iff (b ∷ bs) =
    let (to, from) = has_separator_iff (b ∷ bs) in
    let here = beq_bytes_iff (b ∷ bs) (b'.' ∷ []) in
    let parent = beq_bytes_iff (b ∷ bs) (b'.' ∷ b'.' ∷ []) in
    (
      λ h. record {
        nonempty = λ e. absurd (cc);
        not_here = λ e. ground (arith, here.1 e);
        not_parent = λ e. ground (arith, parent.1 e);
        no_separator = to (ground arith);
      },
      λ n. ground (arith, from n.no_separator, here, parent, n.not_here, n.not_parent),
    )

starts_with-append : (prefix rest : List ℕ) → starts_with (prefix ++ rest) prefix ≡ true
starts_with-append [] rest = refl
starts_with-append (p ∷ ps) rest =
    ground (arith, beq_bytes_iff (p ∷ []) (p ∷ []), starts_with-append ps rest)

starts_with-rest :
    (text prefix : List ℕ)
    → starts_with text prefix ≡ true
    → (rest : List ℕ) × (text ≡ prefix ++ rest)
starts_with-rest text [] h = (text, refl)
starts_with-rest [] (p ∷ ps) h = absurd (cc)
starts_with-rest (t ∷ ts) (p ∷ ps) h =
    let (rest, e) = starts_with-rest ts ps (ground arith) in
    let same : ◌≡◌ {A = List ℕ} (t ∷ []) (p ∷ []) =
      (beq_bytes_iff (t ∷ []) (p ∷ [])).0 (ground arith) in
    (rest, ground (arith, same, e))

member-Has : (x : List ℕ) (xs : List (List ℕ)) → member x xs ≡ true → Has xs x
member-Has x [] h = absurd (cc)
member-Has x (y ∷ ys) h = elim (Bool-cases (beq_bytes y x)) [
  | inl t ↦ (0, ap (λ (z : List ℕ). some z) ((beq_bytes_iff y x).0 t))
  | inr f ↦ let (i, at) = member-Has x ys (ground arith) in (suc i, at)
]

Has-member : (x : List ℕ) (xs : List (List ℕ)) → Has xs x → member x xs ≡ true
Has-member x [] (i, at) = absurd (cc)
Has-member x (y ∷ ys) (zero, at) = ground (arith, beq_bytes_iff y x, some-injective y x at)
Has-member x (y ∷ ys) (suc i, at) = ground (arith, Has-member x ys (i, at))

pub member_iff : (x : List ℕ) (xs : List (List ℕ)) → (member x xs ≡ true) ↔ Has xs x
member_iff x xs = (member-Has x xs, Has-member x xs)

url-IsAllowed :
    (insecure : Bool) (url : List ℕ)
    → (starts_with url https_prefix || (insecure && starts_with url http_prefix)) ≡ true
    → IsAllowed insecure url
url-IsAllowed insecure url h = elim (Bool-cases (starts_with url https_prefix)) [
  | inl t ↦ inl (starts_with-rest url https_prefix t)
  | inr f ↦
      let plain : (insecure && starts_with url http_prefix) ≡ true = rw f at h in
      inr (ground arith, starts_with-rest url http_prefix (ground arith))
]

IsAllowed-url :
    (insecure : Bool) (url : List ℕ)
    → IsAllowed insecure url
    → (starts_with url https_prefix || (insecure && starts_with url http_prefix)) ≡ true
IsAllowed-url insecure url (inl (rest, e)) =
    let found =
      subst (λ u. starts_with u https_prefix ≡ true) (sym e)
        (starts_with-append https_prefix rest) in
    ground arith
IsAllowed-url insecure url (inr (t, (rest, e))) =
    let found =
      subst (λ u. starts_with u http_prefix ≡ true) (sym e) (starts_with-append http_prefix rest) in
    ground arith

pub forward_ok_iff : (ca : CaConfig) → (forward_ok ca ≡ true) ↔ IsForwardable ca
forward_ok_iff ca = elim (Option-cases ca.forward_to) [
  | inl n ↦ (λ h url e. absurd (cc (n, e)), λ f. rw n refl)
  | inr (url, at) ↦ (
    λ h u e.
        subst (IsAllowed ca.forward_insecure) (some-injective url u (sym at ∙ e))
          (url-IsAllowed ca.forward_insecure url (rw at at h)),
    λ f. rw at (IsAllowed-url ca.forward_insecure url (f url at)),
  )
]

demo_key_iff : (key : Option SigningKey) → (is_demo_key key ≡ true) ↔ (key ≡ some demo)
demo_key_iff none = (λ h. absurd (cc), λ e. absurd (cc))
demo_key_iff (some demo) = (λ h. refl, λ e. refl)
demo_key_iff (some file) = (λ h. absurd (cc), λ e. ground arith)
demo_key_iff (some pkcs11) = (λ h. absurd (cc), λ e. ground arith)

seal_pair_iff :
    (key cert : Option FilePath) (signing : Option SigningKey)
    → ((elim key [ none ↦ is_none cert && is_demo_key signing | some _ ↦ not (is_none cert) ])
        ≡ true)
      ↔ (((k : FilePath) × (c : FilePath) × (key ≡ some k) × (cert ≡ some c))
          ⊎ ((key ≡ none) × (cert ≡ none) × (signing ≡ some demo)))
seal_pair_iff (some k) (some c) signing = (λ h. inl (k, c, refl, refl), λ s. refl)
seal_pair_iff (some k) none signing = (λ h. absurd (cc), λ s. ground arith)
seal_pair_iff none (some c) signing = (λ h. absurd (cc), λ s. ground arith)
seal_pair_iff none none signing =
    (λ h. inr (refl, refl, (demo_key_iff signing).0 h), λ s. ground (arith, demo_key_iff signing))

pub seal_ok_iff : (ca : CaConfig) → (seal_ok ca ≡ true) ↔ IsSealed ca
seal_ok_iff ca = seal_pair_iff ca.seal_key ca.seal_cert ca.signing_key

pub fraction_ok_iff : (ca : CaConfig) → (fraction_ok ca ≡ true) ↔ IsUnitFraction ca.max_age_fraction
fraction_ok_iff ca = f64_le-IsUnitFraction ca.max_age_fraction

pub nonces_iff :
    (ca : CaConfig)
    → (not (is_ml_dsa ca && beq_bytes ca.nonce_policy live) ≡ true)
      ↔ (Has ml_dsa_algorithms ca.sig_alg → ca.nonce_policy ≢ live)
nonces_iff ca = elim (Bool-cases (is_ml_dsa ca)) [
  | inr f ↦ (λ h m. absurd (cc (f, Has-member ca.sig_alg ml_dsa_algorithms m)), λ n. ground arith)
  | inl t ↦ (
    λ h m e. ground (arith, (beq_bytes_iff ca.nonce_policy live).1 e),
    λ n.
        let other = n (member-Has ca.sig_alg ml_dsa_algorithms t) in
        elim (Bool-cases (beq_bytes ca.nonce_policy live)) [
          | inl s ↦ absurd (other ((beq_bytes_iff ca.nonce_policy live).0 s))
          | inr g ↦ ground arith
        ],
  )
]
