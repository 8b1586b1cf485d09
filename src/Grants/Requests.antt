-- ===== src/Grants/Requests.antt =====
-- The checks of `CreateGrant` (handlers.go) on a request, and what passes them.
use x_auth_site.Base.{
  ℕ, ◌≤◌, ◌<◌, ◌==◌, ◌≡◌, refl, sym, ◌∙◌, ◌≢◌, ◌⊎◌, inl, inr, String, Bool, true, false, not, ◌&&◌,
  Option, none, some, arith, ltb, str_eq, str_eq_iff, str_eq_ne, Bool-cases, some_inj,
}
use x_auth_site.Base.Int.{ℤ, pos, negsuc}
use x_auth_site.Grants.Issuing.{
  max_ttl_seconds, CreateGrantRequest, CreateError, refuse_if, ttl_of, is_token_hash, request_error,
}

refuse_if-none :
    {E : Type 0} (wrong : Bool) (e : E) (rest : Option E)
    → refuse_if wrong e rest ≡ none
    → (wrong ≡ false) × (rest ≡ none)
refuse_if-none true e rest h = absurd (cc h)
refuse_if-none false e rest h = (refl, h)

-- A lifetime of a day at most: the one that was asked for, or fifteen minutes for 0.
pub record IsTtl (asked : ℤ) (ttl : ℕ) : Type 0 where
  pub positive : 0 < ttl
  pub bounded : ttl ≤ 86400
  pub by_default : asked ≡ pos 0 → ttl ≡ 900
  pub as_asked : (n : ℕ) → asked ≡ pos n → 0 < n → ttl ≡ n

pos_inj : {m n : ℕ} → pos m ≡ pos n → m ≡ n
pos_inj e = cc e

pub ttl_of-IsTtl : (asked : ℤ) (ttl : ℕ) → ttl_of asked ≡ some ttl → IsTtl asked ttl
unfolding ttl_of
ttl_of-IsTtl (negsuc n) ttl e = absurd (cc e)
ttl_of-IsTtl (pos n) ttl e = elim (Bool-cases (n == 0)) [
  | inl zero ↦
      let same = some_inj (rw zero at e) in
      record {
        positive = omega (arith, same);
        bounded = omega (arith, same);
        by_default = λ h. (sym same);
        as_asked = λ m h p. (let k = pos_inj h in ground (arith, zero, k, p));
      }
  | inr given ↦ elim (Bool-cases (ltb max_ttl_seconds n)) [
    | inl long ↦ absurd (cc (rw (given, long) at e))
    | inr short ↦
        let same = some_inj (rw (given, short) at e) in
        record {
          positive = ground (arith, given, same);
          bounded = ground (arith, short, same);
          by_default = λ h. (let k = pos_inj h in ground (arith, given, k));
          as_asked = λ m h p. (sym same ∙ pos_inj h);
        }
  ]
]

-- A lifetime that may be asked for: 0 for the default, or up to a day.
abbrev pub IsLifetime : ℤ → Type 0
IsLifetime asked = (n : ℕ) × (asked ≡ pos n) × (n ≤ 86400)

ttl_of-some : (asked : ℤ) → IsLifetime asked → ttl_of asked ≢ none
unfolding ttl_of
ttl_of-some asked (n, same, short) refusal = elim (Bool-cases (n == 0)) [
  | inl zero ↦ absurd (cc (rw (same, zero) at refusal))
  | inr given ↦
      let fits : ltb max_ttl_seconds n ≡ false = ground (arith, short) in
      absurd (cc (rw (same, given, fits) at refusal))
]

given_text : (s : String) → str_eq s "" ≡ false → s ≢ ""
given_text s e blank = (let t = (str_eq_iff s "").1 blank in cc (e, t))

holds : (b : Bool) → not b ≡ false → b ≡ true
holds true e = refl
holds false e = absurd (cc e)

module _ (trim : String → String) (len : String → ℕ) (hex_decodes : String → Bool)
    (show_time : ℕ → String) where
  -- A digest of 64 hex digits.
  abbrev pub IsDigest : String → Type 0
  IsDigest s = (len s ≡ 64) × (hex_decodes s ≡ true)

  is_token_hash-IsDigest :
      (s : String) → is_token_hash trim len hex_decodes show_time s ≡ true → IsDigest s
  unfolding is_token_hash
  is_token_hash-IsDigest s e = elim (Bool-cases (len s == 64)) [
    | inl long ↦ (ground (arith, long), rw long at e)
    | inr other ↦ absurd (cc (rw other at e))
  ]

  IsDigest-is_token_hash :
      (s : String) → IsDigest s → is_token_hash trim len hex_decodes show_time s ≡ true
  unfolding is_token_hash
  IsDigest-is_token_hash s (long, hex) =
      let t : (len s == 64) ≡ true = ground (arith, long) in rw (t, hex) refl

  -- The fields of a request that the checks let pass.
  pub record IsChecked (req : CreateGrantRequest) : Type 0 where
    pub install : trim req.install_id ≢ ""
    pub identity : trim req.identity_id ≢ ""
    pub persona : trim req.persona_id ≢ ""
    pub access : IsDigest (trim req.access_token_hash)
    pub refresh : (trim req.refresh_token_hash ≡ "") ⊎ IsDigest (trim req.refresh_token_hash)

  refresh_lem :
      (s : String)
      → (not (str_eq s "") && not (is_token_hash trim len hex_decodes show_time s)) ≡ false
      → (s ≡ "") ⊎ IsDigest s
  refresh_lem s e = elim (Bool-cases (str_eq s "")) [
    | inl blank ↦ inl ((str_eq_iff s "").0 blank)
    | inr given ↦ inr (is_token_hash-IsDigest s (holds _ (rw given at e)))
  ]

  refresh_passes :
      (s : String)
      → (s ≡ "") ⊎ IsDigest s
      → (not (str_eq s "") && not (is_token_hash trim len hex_decodes show_time s)) ≡ false
  refresh_passes s (inl blank) = (let t = (str_eq_iff s "").1 blank in rw t refl)
  refresh_passes s (inr digest) = elim (Bool-cases (str_eq s "")) [
    | inl blank ↦ rw blank refl
    | inr given ↦ rw (given, IsDigest-is_token_hash s digest) refl
  ]

  pub request_error-IsChecked :
      (req : CreateGrantRequest)
      → request_error trim len hex_decodes show_time req ≡ none
      → IsChecked req
  unfolding request_error
  request_error-IsChecked req e =
      let (install, e1) = refuse_if-none _ _ _ e in
      let (identity, e2) = refuse_if-none _ _ _ e1 in
      let (persona, e3) = refuse_if-none _ _ _ e2 in
      let (access, e4) = refuse_if-none _ _ _ e3 in
      let (refresh, _) = refuse_if-none _ _ _ e4 in
      record {
        install = given_text _ install;
        identity = given_text _ identity;
        persona = given_text _ persona;
        access = is_token_hash-IsDigest _ (holds _ access);
        refresh = refresh_lem _ refresh;
      }

  request_error-none :
      (req : CreateGrantRequest)
      → IsChecked req
      → request_error trim len hex_decodes show_time req ≡ none
  unfolding request_error
  request_error-none req c =
      rw
        (
          str_eq_ne _ "" c.install,
          str_eq_ne _ "" c.identity,
          str_eq_ne _ "" c.persona,
          IsDigest-is_token_hash _ c.access,
          refresh_passes _ c.refresh,
        )
        refl

  -- A request that may be granted.
  abbrev pub IsGrantable : CreateGrantRequest → Type 0
  IsGrantable req = IsChecked req × IsLifetime req.ttl_seconds

  pub error-not_IsGrantable :
      (req : CreateGrantRequest) (e : CreateError)
      → request_error trim len hex_decodes show_time req ≡ some e
      → ¬ IsGrantable req
  error-not_IsGrantable req e found (c, _) =
      let passed = request_error-none req c in cc (found, passed)

  pub ttl_none-not_IsGrantable :
      (req : CreateGrantRequest) → ttl_of req.ttl_seconds ≡ none → ¬ IsGrantable req
  ttl_none-not_IsGrantable req found (_, lives) = ttl_of-some req.ttl_seconds lives found
