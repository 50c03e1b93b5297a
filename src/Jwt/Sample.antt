-- ===== src/Jwt/Sample.antt =====
-- Tokens of one user with one role, signed with the secret "secret": the text "access" is an access
-- token, and any other text a refresh token with that `jti`. The laws of the library can be met.
use helpdesk_microservices.Base.{
  ℕ, ◌≡◌, refl, sym, subst, inl, inr, true, false, not, ◌&&◌, Option, none, some, String, ltb, ◌<◌,
  ◌==◌, ◌=s=◌, eq_iff, arith, Bool-cases, Option-cases, if◌then◌else◌,
}
use helpdesk_microservices.Jwt.Defs.{Claim, Claims, SigningMethod, Unexpired, Jwt}

module _ (user : ℕ) (role : String) (access_exp refresh_exp : ℕ) where
  abbrev pub exp_of : String → ℕ
  exp_of t = if t =s= "access" then access_exp else refresh_exp

  abbrev pub claims_of : String → Claims
  claims_of t = record {
    user_id = some (Claim.number user);
    role = some (Claim.text role);
    exp = some (exp_of t);
    jti = if t =s= "access" then none else some t;
  }

  unfoldable pub parse_sample : (SigningMethod → Option String) → ℕ → String → Option Claims
  parse_sample keyfunc now t = elim (keyfunc SigningMethod.hmac) [
    | none ↦ none
    | some key ↦ if key =s= "secret" && ltb now (exp_of t) then some (claims_of t) else none
  ]

  unfoldable pub sign_parts :
      String → Option Claim → Option Claim → Option ℕ → Option String → Option String
  sign_parts key (some (Claim.number n)) (some (Claim.text r)) (some e) none =
      if key =s= "secret" && n == user && r =s= role && e == access_exp then some "access" else none
  sign_parts key (some (Claim.number n)) (some (Claim.text r)) (some e) (some j) =
      if key =s= "secret" && n == user && r =s= role && e == refresh_exp && not (j =s= "access")
      then some j
      else none
  sign_parts key _ _ _ _ = none

  abbrev pub SignedSample : SigningMethod → String → Claims → String → Type 0
  SignedSample m key c t = (m ≡ SigningMethod.hmac) × (key ≡ "secret") × (c ≡ claims_of t)

  pub sample_sound :
      (keyfunc : SigningMethod → Option String) (now : ℕ) (token : String) (c : Claims)
      → parse_sample keyfunc now token ≡ some c
      → (m : SigningMethod) × (key : String) × (keyfunc m ≡ some key)
        × SignedSample m key c token
        × Unexpired now c
  unfolding parse_sample
  sample_sound keyfunc now token c h = elim (Option-cases (keyfunc SigningMethod.hmac)) [
    | inl e ↦ let failed = rw (e, parse_sample) at h in cc
    | inr (key, e) ↦ elim (Bool-cases (key =s= "secret" && ltb now (exp_of token))) [
      | inl f ↦
          let made = rw (e, f, parse_sample) at h in
          let same : claims_of token ≡ c = ground (arith, made) in
          let valid : (key ≡ "secret") × (now < exp_of token) =
            ground (arith, f, eq_iff key "secret") in
          (
            SigningMethod.hmac,
            key,
            e,
            (refl, valid.0, sym same),
            subst (Unexpired now) same valid.1,
          )
      | inr f ↦ let failed = rw (e, f, parse_sample) at h in cc
    ]
  ]

  pub sample_complete :
      (keyfunc : SigningMethod → Option String) (now : ℕ) (token : String) (c : Claims)
      (m : SigningMethod) (key : String)
      → keyfunc m ≡ some key
      → SignedSample m key c token
      → Unexpired now c
      → parse_sample keyfunc now token ≡ some c
  unfolding parse_sample
  sample_complete keyfunc now token c m key k (is_hmac, secret, is_c) unexpired =
      let found : keyfunc SigningMethod.hmac ≡ some "secret" = rw (is_hmac, secret) at k in
      let live : ltb now (exp_of token) ≡ true =
        let before : now < exp_of token = subst (Unexpired now) is_c unexpired in ground arith in
      rw (found, live, is_c, parse_sample) refl

  pub sign_sound :
      (key : String) (u r : Option Claim) (e : Option ℕ) (j : Option String) (token : String)
      → sign_parts key u r e j ≡ some token
      → SignedSample SigningMethod.hmac key
          (record { user_id = u; role = r; exp = e; jti = j })
          token
  unfolding sign_parts
  sign_sound key (some (Claim.number n)) (some (Claim.text r)) (some e) none token h =
      let (k, n_is, r_is, e_is, t_is) : (key ≡ "secret")
          × (n ≡ user)
          × (r ≡ role)
          × (e ≡ access_exp)
          × ("access" ≡ token) =
        ground (arith, eq_iff key "secret", eq_iff r role) in
      (refl, k, rw (n_is, r_is, e_is, ← t_is) refl)
  sign_sound key (some (Claim.number n)) (some (Claim.text r)) (some e) (some j) token h =
      let (k, n_is, r_is, e_is, t_is, other) : (key ≡ "secret")
          × (n ≡ user)
          × (r ≡ role)
          × (e ≡ refresh_exp)
          × (j ≡ token)
          × ((j =s= "access") ≡ false) =
        ground (arith, eq_iff key "secret", eq_iff r role) in
      (refl, k, rw (n_is, r_is, e_is, ← t_is, other) refl)
  sign_sound key none r e j token h = cc
  sign_sound key (some (Claim.text t)) r e j token h = cc
  sign_sound key (some (Claim.other t)) r e j token h = cc
  sign_sound key (some Claim.null) r e j token h = cc
  sign_sound key (some (Claim.number n)) none e j token h = cc
  sign_sound key (some (Claim.number n)) (some (Claim.number r)) e j token h = cc
  sign_sound key (some (Claim.number n)) (some (Claim.other r)) e j token h = cc
  sign_sound key (some (Claim.number n)) (some Claim.null) e j token h = cc
  sign_sound key (some (Claim.number n)) (some (Claim.text r)) none j token h = cc

  unfoldable pub sample_jwt : Jwt
  unfolding parse_sample sign_parts
  sample_jwt = record {
    Signed = SignedSample;
    parse = parse_sample;
    sign = λ key c. sign_parts key c.user_id c.role c.exp c.jti;
    parse_sound = sample_sound;
    parse_complete = sample_complete;
    sign_signed = λ key c token h. sign_sound key c.user_id c.role c.exp c.jti token h;
  }
