-- ===== src/Core/Config/Validate/Sound.antt =====
-- `validate_for_mode` of crates/hoike-core/src/config.rs accepts what keeps the rules.
use hoike.Base.{
  ℕ, ◌≡◌, ◌≢◌, ◌↔◌, ◌⊎◌, refl, sym, inl, inr, List, [], ◌∷◌, Bool-cases, false, not, ◌||◌, Option,
  none, some, some-injective, ok, subst, arith, All, beq_bytes, beq_bytes_iff, guard_iff,
  if◌then◌else◌, ◌>>◌, guard, ◌&&◌,
}
use hoike.Ahu.Verify.{is_none}
use hoike.Core.Error.{config}
use hoike.Core.Config.{Config, CaConfig, GossipSection, is_unsafe, is_empty}
use hoike.Core.Config.Validate.{
  member, forward_ok, check_gossip, check_labels, check_algorithms, check_signing, seal_ok,
  is_ml_dsa, fraction_ok, needs_signing, validate_for_mode,
}
use hoike.Core.Config.Validate.Rules.{
  IsFileName, IsForwardable, IsAlgorithm, CanSign, is_unsafe_iff, forward_ok_iff, seal_ok_iff,
  member_iff, fraction_ok_iff, nonces_iff, ml_dsa_algorithms,
}
use hoike.Core.Config.Validate.Guards.{
  is_some_iff, is_empty_iff, nonempty_iff, last_guard_iff, either_iff, then-ok,
}
use hoike.Core.Config.Texts.{
  ecdsa_p256, dual, sha256_only, sha1_only, live, combined, signer, required, permissive,
}

-- Every label is a file name, and no two are the same.
abbrev pub AreDistinct : List CaConfig → Type 0
AreDistinct [] = Unit
AreDistinct (ca ∷ cas) =
    IsFileName ca.label × All (λ (other : CaConfig). other.label ≢ ca.label) cas × AreDistinct cas

abbrev pub IsGossip : GossipSection → Type 0
IsGossip g = (g.peer_keys ≡ []) × ((g.auth_mode ≡ required) ⊎ (g.auth_mode ≡ permissive))

abbrev pub Signs : Config → Type 0
Signs c = (c.server.mode ≡ combined) ⊎ (c.server.mode ≡ signer)

pub record IsValid (c : Config) : Type 0 where
  pub gossip : (g : GossipSection) → c.gossip ≡ some g → IsGossip g
  pub distinct : AreDistinct c.ca
  pub forwardable : All IsForwardable c.ca
  pub algorithms : All IsAlgorithm c.ca
  pub signing : Signs c → (c.ca ≢ []) × All CanSign c.ca

-- The labels of `cas` are none of those that the loop has seen.
abbrev AreNew : List (List ℕ) → List CaConfig → Type 0
AreNew seen cas = All (λ (ca : CaConfig). member ca.label seen ≡ false) cas

AreNew-cons :
    (l : List ℕ) (seen : List (List ℕ)) (cas : List CaConfig)
    → AreNew (l ∷ seen) cas ↔ (All (λ (other : CaConfig). other.label ≢ l) cas × AreNew seen cas)
AreNew-cons l seen [] = (λ a. (tt, tt), λ a. tt)
AreNew-cons l seen (ca ∷ cas) =
    let (to, from) = AreNew-cons l seen cas in
    let same = beq_bytes_iff l ca.label in
    (
      λ a. (
        ((λ e. ground (arith, a.0, same.1 (sym e))), (to a.1).0),
        (ground (arith, a.0), (to a.1).1),
      ),
      λ p. (ground (arith, same, p.0.0, p.1.0), from (p.0.1, p.1.1)),
    )

check_labels_iff :
    (seen : List (List ℕ)) (cas : List CaConfig)
    → (check_labels seen cas ≡ ok tt) ↔ (AreNew seen cas × AreDistinct cas × All IsForwardable cas)
unfolding check_labels
check_labels_iff seen [] = (λ h. (tt, tt, tt), λ a. refl)
check_labels_iff seen (ca ∷ cas) =
    let (to, from) = check_labels_iff (ca.label ∷ seen) cas in
    let (split, join) = AreNew-cons ca.label seen cas in
    let name = not (is_unsafe ca.label) && not (member ca.label seen) in
    (
      λ h.
          let (named, more) = (guard_iff name config _ tt).0 h in
          let (forwards, rest) = (guard_iff (forward_ok ca) config _ tt).0 more in
          let (new, distinct, forwardable) = to rest in
          let (others, old) = split new in
          (
            (ground arith, old),
            ((is_unsafe_iff ca.label).0 (ground arith), others, distinct),
            ((forward_ok_iff ca).0 forwards, forwardable),
          ),
      λ p.
          let ((new, old), (file_name, others, distinct), (forwards, forwardable)) = p in
          let safe = (is_unsafe_iff ca.label).1 file_name in
          (guard_iff name config _ tt).1 (
            ground arith,
            (guard_iff (forward_ok ca) config _ tt).1
                ((forward_ok_iff ca).1 forwards, from (join (others, old), distinct, forwardable)),
          ),
    )

check_signing_iff : (cas : List CaConfig) → (check_signing cas ≡ ok tt) ↔ All CanSign cas
unfolding check_signing
check_signing_iff [] = (λ h. tt, λ a. refl)
check_signing_iff (ca ∷ cas) =
    let (to, from) = check_signing_iff cas in
    (
      λ h.
          let (source, h1) = (guard_iff ca.has_source config _ tt).0 h in
          let (key, h2) = (guard_iff (not (is_none ca.signing_key)) config _ tt).0 h1 in
          let (sealed, rest) = (guard_iff (seal_ok ca) config _ tt).0 h2 in
          (
            record {
              has_source = source;
              keyed = (is_some_iff ca.signing_key).0 key;
              sealed = (seal_ok_iff ca).0 sealed;
            },
            to rest,
          ),
      λ p. (guard_iff ca.has_source config _ tt).1 (
        p.0.has_source,
        (guard_iff (not (is_none ca.signing_key)) config _ tt).1 (
          (is_some_iff ca.signing_key).1 p.0.keyed,
          (guard_iff (seal_ok ca) config _ tt).1 ((seal_ok_iff ca).1 p.0.sealed, from p.1),
        ),
      ),
    )

check_algorithms_iff : (cas : List CaConfig) → (check_algorithms cas ≡ ok tt) ↔ All IsAlgorithm cas
unfolding check_algorithms
check_algorithms_iff [] = (λ h. tt, λ a. refl)
check_algorithms_iff (ca ∷ cas) =
    let (to, from) = check_algorithms_iff cas in
    let alg = member_iff ca.sig_alg (ecdsa_p256 ∷ ml_dsa_algorithms) in
    let compat = member_iff ca.certid_compat (dual ∷ sha256_only ∷ sha1_only ∷ []) in
    let fraction = fraction_ok_iff ca in
    let nonces = not (is_ml_dsa ca && beq_bytes ca.nonce_policy live) in
    (
      λ h.
          let (known, h1) = (guard_iff _ config _ tt).0 h in
          let (allowed, h2) = (guard_iff nonces config _ tt).0 h1 in
          let (named, h3) = (guard_iff _ config _ tt).0 h2 in
          let (fits, rest) = (guard_iff (fraction_ok ca) config _ tt).0 h3 in
          (
            record {
              sig_alg = alg.0 known;
              nonces = (nonces_iff ca).0 allowed;
              certid_compat = compat.0 named;
              max_age_fraction = fraction.0 fits;
            },
            to rest,
          ),
      λ p. (guard_iff _ config _ tt).1 (
        alg.1 p.0.sig_alg,
        (guard_iff nonces config _ tt).1 (
          (nonces_iff ca).1 p.0.nonces,
          (guard_iff _ config _ tt).1 (
            compat.1 p.0.certid_compat,
            (guard_iff (fraction_ok ca) config _ tt).1 (fraction.1 p.0.max_age_fraction, from p.1),
          ),
        ),
      ),
    )

AreNew-nil : (cas : List CaConfig) → AreNew [] cas
AreNew-nil [] = tt
AreNew-nil (ca ∷ cas) = (refl, AreNew-nil cas)

check_gossip_iff :
    (o : Option GossipSection)
    → (check_gossip o ≡ ok tt) ↔ ((g : GossipSection) → o ≡ some g → IsGossip g)
check_gossip_iff none = (λ h g e. absurd (cc), λ f. refl)
check_gossip_iff (some s) =
    let keys = is_empty s.peer_keys in
    let mode = beq_bytes s.auth_mode required || beq_bytes s.auth_mode permissive in
    (
      λ h g e.
          let (empty, rest) = (guard_iff keys config _ tt).0 h in
          subst IsGossip (some-injective s g e) (
            (is_empty_iff s.peer_keys).0 empty,
            (either_iff s.auth_mode required permissive).0 ((last_guard_iff mode).0 rest),
          ),
      λ f.
          let (empty, modes) = f s refl in
          (guard_iff keys config (guard mode config) tt).1 (
            (is_empty_iff s.peer_keys).1 empty,
            (last_guard_iff mode).1 ((either_iff s.auth_mode required permissive).1 modes),
          ),
    )

check_modes_iff :
    (c : Config)
    → ((if needs_signing c
          then (check_signing c.ca >> guard (not (is_empty c.ca)) config)
          else ok tt)
        ≡ ok tt)
      ↔ (Signs c → (c.ca ≢ []) × All CanSign c.ca)
check_modes_iff c = elim (Bool-cases (needs_signing c)) [
  | inr f ↦ (λ h n. absurd (cc (f, (either_iff c.server.mode combined signer).1 n)), λ g. rw f refl)
  | inl t ↦ (
    λ h n.
        let (signed, last) = then-ok (check_signing c.ca) _ (rw t at h) in
        (
          (nonempty_iff c.ca).0 ((last_guard_iff (not (is_empty c.ca))).0 last),
          (check_signing_iff c.ca).0 signed,
        ),
    λ g.
        let (nonempty, can) = g ((either_iff c.server.mode combined signer).0 t) in
        rw (t, (check_signing_iff c.ca).1 can)
          ((last_guard_iff (not (is_empty c.ca))).1 ((nonempty_iff c.ca).1 nonempty)),
  )
]

-- `validate_for_mode` accepts a configuration exactly when it keeps these rules. The CA labels are distinct
-- file names, and every forward URL is https, or http where that was allowed. Every CA has a known
-- signature algorithm, answers nonces live only if that is not ML-DSA, has a known form of CertIDs, and a
-- max_age_fraction whose value is in (0, 1]. A gossip section has no peer_keys and a known mode. If the
-- node signs, there is a CA, and each has a source, a signing key, and a whole seal pair, or a demo key
-- and neither half.
pub validate_for_mode_iff : (c : Config) → (validate_for_mode c ≡ ok tt) ↔ IsValid c
unfolding validate_for_mode
validate_for_mode_iff c =
    let labels = check_labels_iff [] c.ca in
    let algorithms = check_algorithms_iff c.ca in
    (
      λ h.
          let (gossip, h1) = then-ok (check_gossip c.gossip) _ h in
          let (labelled, h2) = then-ok (check_labels [] c.ca) _ h1 in
          let (known, modes) = then-ok (check_algorithms c.ca) _ h2 in
          let (_, distinct, forwardable) = labels.0 labelled in
          record {
            gossip = (check_gossip_iff c.gossip).0 gossip;
            distinct = distinct;
            forwardable = forwardable;
            algorithms = algorithms.0 known;
            signing = (check_modes_iff c).0 modes;
          },
      λ v.
          rw
            (
              (check_gossip_iff c.gossip).1 v.gossip,
              labels.1 (AreNew-nil c.ca, v.distinct, v.forwardable),
              algorithms.1 v.algorithms,
            )
            ((check_modes_iff c).1 v.signing),
    )
