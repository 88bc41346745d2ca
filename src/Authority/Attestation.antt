-- ===== src/Authority/Attestation.antt =====
-- `validateBiometricAttestation` of packages/core/src/authority.ts.
use janus_core.Base.{
  ℕ, ◌+◌, ◌≤◌, ◌<◌, String, ◌≡◌, refl, inl, inr, true, false, Option, none, some, arith,
  Option-cases, is_blank, units, is_digest,
}
use text.Mathlib.TextEquality.{eq_iff}
use janus_core.Authority.{
  BiometricAttestation, AuthorityInstruction, AuthorityPolicy, Platform, check_attestation,
  positive_freshness, validate_biometric_attestation, check_instants,
}

check_instants-none :
    (or ov oe : Option ℕ) (freshness : ℕ)
    → check_instants or ov oe freshness ≡ none
    → (r v e : ℕ) × (or ≡ some r)
      × (ov ≡ some v)
      × (oe ≡ some e)
      × (v ≤ r + 5000)
      × (r ≤ e)
      × (v < e)
      × (e ≤ v + freshness)
check_instants-none (some r) (some v) (some e) f h =
    (r, v, e, refl, refl, refl, ground arith, ground arith, ground arith, ground arith)
check_instants-none _ _ _ f h = absurd (cc)

module _ (platform : Platform) (request : AuthorityInstruction) (action : String)
    (policy : AuthorityPolicy) where
  abbrev instant : String → Option ℕ
  instant s = platform.parse_date s

  -- The three instants of an attestation that is fresh for the request: it was verified at most
  -- five seconds after the request, has not run out, and lives no longer than the policy lets it.
  pub record IsFresh (a : BiometricAttestation) : Type 0 where
    pub requested : ℕ
    pub verified : ℕ
    pub expires : ℕ
    pub requested_at : instant request.requested_at ≡ some requested
    pub verified_at : instant a.verified_at ≡ some verified
    pub expires_at : instant a.expires_at ≡ some expires
    pub not_early : verified ≤ requested + 5000
    pub not_expired : requested ≤ expires
    pub in_order : verified < expires
    pub short : expires ≤ verified + positive_freshness policy.biometric_freshness_ms

  -- An attestation of the platform's face check for this principal and this very action.
  pub record Attests (a : BiometricAttestation) : Type 0 where
    pub present : request.biometric_attestation ≡ some a
    pub same_principal : a.principal_id ≡ request.principal_id
    pub same_action : a.action ≡ action
    pub face : a.method ≡ "platform-face"
    pub digest : is_digest a.proof_hash ≡ true
    pub key : (is_blank a.key_id ≡ false) × (units a.key_id ≤ 160)
    pub fresh : IsFresh a

  check_instants-IsFresh :
      (a : BiometricAttestation)
      → check_instants
          (instant request.requested_at)
          (instant a.verified_at)
          (instant a.expires_at)
          (positive_freshness policy.biometric_freshness_ms)
        ≡ none
      → IsFresh a
  check_instants-IsFresh a h =
      let (r, v, e, er, ev, ee, w, x, y, z) = check_instants-none _ _ _ _ h in
      record {
        requested = r;
        verified = v;
        expires = e;
        requested_at = er;
        verified_at = ev;
        expires_at = ee;
        not_early = w;
        not_expired = x;
        in_order = y;
        short = z;
      }

  IsFresh-check_instants :
      (a : BiometricAttestation)
      → IsFresh a
      → check_instants
          (instant request.requested_at)
          (instant a.verified_at)
          (instant a.expires_at)
          (positive_freshness policy.biometric_freshness_ms)
        ≡ none
  IsFresh-check_instants a f = rw (f.requested_at, f.verified_at, f.expires_at) (ground arith)

  pub validate-Attests :
      validate_biometric_attestation platform request action policy ≡ none
      → (a : BiometricAttestation) × Attests a
  unfolding validate_biometric_attestation
  validate-Attests h = elim (Option-cases request.biometric_attestation) [
    | inl missing ↦ absurd (cc (rw (missing, validate_biometric_attestation) at h))
    | inr (a, found) ↦ (a, attests a found (rw (found, validate_biometric_attestation) at h))
  ]
    where
      attests :
          (a : BiometricAttestation)
          → request.biometric_attestation ≡ some a
          → check_attestation platform a request action policy ≡ none
          → Attests a
      attests a found k = record {
        present = found;
        same_principal = ground (arith, eq_iff a.principal_id request.principal_id);
        same_action = ground (arith, eq_iff a.action action);
        face = ground (arith, eq_iff a.method "platform-face");
        digest = ground arith;
        key = ground arith;
        fresh = check_instants-IsFresh a (ground arith);
      }

  pub Attests-validate :
      (a : BiometricAttestation)
      → Attests a
      → validate_biometric_attestation platform request action policy ≡ none
  unfolding validate_biometric_attestation
  Attests-validate a t =
      rw (t.present, validate_biometric_attestation)
        (ground (
          arith,
          eq_iff a.principal_id request.principal_id,
          eq_iff a.action action,
          eq_iff a.method "platform-face",
          IsFresh-check_instants a t.fresh,
        ))
