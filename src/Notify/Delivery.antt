-- ===== src/Notify/Delivery.antt =====
-- Who gets a message, and how long the queue grows.
use helpdesk_microservices.Base.{
  ℕ, ◌≤◌, ◌≡◌, refl, ap, inl, inr, Bool, true, not, ◌&&◌, some, String, List, [], ◌∷◌, ◌++◌, map,
  keep, length, length-append, arith, ==_iff, Bool-cases, All, All-append, subst, sym, guard,
  bind-eq-ok, ok, ok-injective, ◌=s=◌, ◌==◌,
}
use helpdesk_microservices.Http.{required-eq-ok}
use helpdesk_microservices.Jwt.{Claims, SigningMethod, Jwt, hmac_only}
use helpdesk_microservices.Gateway.Identity.{hmac-only_lem}
use helpdesk_microservices.Tickets.Handler.{Event}
use helpdesk_microservices.Notify.Hub.{
  Client, Outbound, queue_capacity, matches, enqueue, deliver, route_event, Hub, Step, Reachable,
  authorize, role_of, user_of, rejected, without,
}

abbrev pub conn_of : Client → ℕ
conn_of c = c.conn

-- A message is written to the connections of the clients that match it, once each and in their
-- order, and to no other. The clients that stay are those that do not match or whose write did
-- not fail.
pub deliver_lem :
    (fails : ℕ → Bool) (out : Outbound) (clients : List Client)
    → ((deliver fails out clients).0 ≡ map conn_of (keep (λ c. matches c out) clients))
      × ((deliver fails out clients).1 ≡ keep (λ c. not (matches c out && fails c.conn)) clients)
unfolding deliver keep
deliver_lem fails out [] = (refl, refl)
deliver_lem fails out (c ∷ clients) =
    let rest = deliver_lem fails out clients in
    elim (Bool-cases (matches c out)) [
      | inr e ↦ rw (e, deliver, keep) (rest.0, ap (λ l. c ∷ l) rest.1)
      | inl e ↦ elim (Bool-cases (fails c.conn)) [
        | inl f ↦ rw (e, f, deliver, keep) (ap (λ l. c.conn ∷ l) rest.0, rest.1)
        | inr f ↦ rw (e, f, deliver, keep) (ap (λ l. c.conn ∷ l) rest.0, ap (λ l. c ∷ l) rest.1)
      ]
    ]

-- An event for one user is routed to a message that only the clients of that user match.
pub route_event-matches :
    (e : Event) (raw : String) (user : ℕ) (out : Outbound) (c : Client)
    → e.target_user_id ≡ some user
    → route_event e raw ≡ some out
    → matches c out ≡ true
    → c.user_id ≡ user
unfolding route_event matches
route_event-matches e raw user out c for_user routed matched =
    let made = rw (for_user, route_event) at routed in
    let target : out.target_user_id ≡ some user = ground (arith, made) in
    (==_iff c.user_id user).0 (rw (target, matches) at matched)

module _ (jwt : Jwt) (secret : String) (max_connections : ℕ) where
  enqueue_le :
      (queue : List Outbound) (out : Outbound)
      → length queue ≤ queue_capacity
      → length (enqueue queue out) ≤ queue_capacity
  unfolding enqueue
  enqueue_le queue out h = let longer = length-append queue (out ∷ []) in ground (arith, longer)

  Step-le :
      {g h : Hub}
      → Step jwt secret max_connections g h
      → length g.queue ≤ queue_capacity
      → length h.queue ≤ queue_capacity
  Step-le (Step.passes_check g c now token made free) b = b
  Step-le (Step.upgrade_fails g before after c e) b = b
  Step-le (Step.registers g before after c e) b = b
  Step-le (Step.disconnects g conn) b = b
  Step-le (Step.enqueues g out) b = enqueue_le g.queue out b
  Step-le (Step.delivers g out rest fails e) b = let shorter = rw e at b in omega arith
  Step-le (Step.breaks_off g out rest fails before after e cut) b =
      let shorter = rw e at b in omega arith
  Step-le (Step.reorders g before after c d e) b = b

  -- However the goroutines interleave, the queue of messages never holds more than 256.
  pub Reachable-le :
      (h : Hub) → Reachable jwt secret max_connections h → length h.queue ≤ queue_capacity
  Reachable-le h Reachable.start = omega arith
  Reachable-le h (Reachable.next g _ r s) = Step-le s (Reachable-le g r)

  -- A client has the user and the role of a token that is signed with the secret, by HMAC.
  pub record Authorized (c : Client) : Type 0 where
    pub token : String
    pub claims : Claims
    pub signed : jwt.Signed SigningMethod.hmac secret claims token
    pub role_is : c.role ≡ role_of claims.role
    pub user_is : c.user_id ≡ user_of claims.user_id

  authorize-Authorized :
      (now conn : ℕ) (token : String) (c : Client)
      → authorize jwt secret now conn token ≡ ok c
      → Authorized c
  unfolding authorize
  authorize-Authorized now conn token c h =
      let (_, _, h1) = bind-eq-ok (guard (not (token =s= "")) (rejected 401 "missing token")) _ h in
      let (claims, parsed, last) =
        required-eq-ok (jwt.parse (hmac_only secret) now token) (rejected 401 "unauthorized") _
          h1 in
      let (m, key, only, signed, _) = jwt.parse_sound (hmac_only secret) now token claims parsed in
      let (is_hmac, is_secret) = hmac-only_lem jwt secret key m only in
      let same = ok-injective last in
      record {
        token = token;
        claims = claims;
        signed = rw (is_hmac, is_secret) at signed;
        role_is = ap (λ (x : Client). x.role) (sym same);
        user_is = ap (λ (x : Client). x.user_id) (sym same);
      }

  All-kept : (p : Client → Bool) (cs : List Client) → All Authorized cs → All Authorized (keep p cs)
  unfolding keep
  All-kept p [] h = tt
  All-kept p (c ∷ cs) h = elim (Bool-cases (p c)) [
    | inl e ↦ rw (e, keep) (h.0, All-kept p cs h.1)
    | inr e ↦ rw (e, keep) (All-kept p cs h.1)
  ]

  All-without : (conn : ℕ) (cs : List Client) → All Authorized cs → All Authorized (without conn cs)
  All-without conn [] h = tt
  All-without conn (c ∷ cs) h = elim (Bool-cases (c.conn == conn)) [
    | inl e ↦ rw e (All-without conn cs h.1)
    | inr e ↦ rw e (h.0, All-without conn cs h.1)
  ]

  All-split :
      (xs ys : List Client) → All Authorized (xs ++ ys) → All Authorized xs × All Authorized ys
  All-split [] ys h = (tt, h)
  All-split (x ∷ xs) ys h = let (first, last) = All-split xs ys h.1 in ((h.0, first), last)

  abbrev AllAuthorized : Hub → Type 0
  AllAuthorized h = All Authorized h.clients × All Authorized h.pending

  Step-AllAuthorized :
      {g h : Hub} → Step jwt secret max_connections g h → AllAuthorized g → AllAuthorized h
  Step-AllAuthorized (Step.passes_check g c now token made free) a =
      (a.0, (authorize-Authorized now c.conn token c made, a.1))
  Step-AllAuthorized (Step.upgrade_fails g before after c e) a =
      let (first, rest) = All-split before (c ∷ after) (subst (All Authorized) e a.1) in
      (a.0, All-append Authorized before after first rest.1)
  Step-AllAuthorized (Step.registers g before after c e) a =
      let (first, rest) = All-split before (c ∷ after) (subst (All Authorized) e a.1) in
      ((rest.0, a.0), All-append Authorized before after first rest.1)
  Step-AllAuthorized (Step.disconnects g conn) a = (All-without conn g.clients a.0, a.1)
  Step-AllAuthorized (Step.enqueues g out) a = a
  Step-AllAuthorized (Step.delivers g out rest fails e) a = (
    subst (All Authorized) (sym (deliver_lem fails out g.clients).1) (All-kept _ g.clients a.0),
    a.1,
  )
  Step-AllAuthorized (Step.breaks_off g out rest fails before after e cut) a =
      let (first, last) = All-split before after (subst (All Authorized) cut a.0) in
      (
        All-append Authorized (deliver fails out before).1 after
            (subst (All Authorized) (sym (deliver_lem fails out before).1)
              (All-kept _ before first))
            last,
        a.1,
      )
  Step-AllAuthorized (Step.reorders g before after c d e) a =
      let (first, rest) = All-split before (c ∷ d ∷ after) (subst (All Authorized) e a.0) in
      (All-append Authorized before (d ∷ c ∷ after) first (rest.1.0, (rest.0, rest.1.1)), a.1)

  reached-AllAuthorized : (h : Hub) → Reachable jwt secret max_connections h → AllAuthorized h
  reached-AllAuthorized h Reachable.start = (tt, tt)
  reached-AllAuthorized h (Reachable.next g _ r s) =
      Step-AllAuthorized s (reached-AllAuthorized g r)

  -- However the goroutines interleave, every client of the hub has the user and the role of a
  -- token that is signed, by HMAC, with the secret of the services.
  pub Reachable-Authorized :
      (h : Hub) → Reachable jwt secret max_connections h → All Authorized h.clients
  Reachable-Authorized h r = (reached-AllAuthorized h r).0
