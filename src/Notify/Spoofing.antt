-- ===== src/Notify/Spoofing.antt =====
-- A client cannot choose the address that it is counted for.
use Prim.Native.Char.{Char}
use Prim.Native.String.append
use Prim.Native.String.{◌++◌}
use mathlib.Core.List.{Memᴰ, ◌++◌ as ◌++ᴸ◌}
use helpdesk_microservices.Base.{
  ◌≡◌, refl, ap, ◌∙◌, subst, inl, inr, false, some, String, List, [], ◌∷◌, Bool-cases, Option-cases,
  eq_iff,
}
use helpdesk_microservices.Text.{split_at, trim_space, split_at-append}
use helpdesk_microservices.Notify.ClientIp.{
  NetPackage, is_blank, is_trusted, entry_decides, last_decides, peer_of, client_ip,
}

abbrev pub comma : Char
comma = ","

cons-not_blank : (c : Char) (s : String) → is_blank (String.◌∷◌ c s) ≡ false
cons-not_blank c s = elim (Bool-cases (is_blank (String.◌∷◌ c s))) [
  | inr e ↦ e
  | inl e ↦ let same = (eq_iff (String.◌∷◌ c s) "").0 e in cc
]

longer-not_blank : (a b : String) (c : Char) → is_blank (a ++ String.◌∷◌ c b) ≡ false
longer-not_blank String.[] b c = ap is_blank (append.nil (String.◌∷◌ c b)) ∙ cons-not_blank c b
longer-not_blank (String.◌∷◌ d a) b c =
    ap is_blank (append.cons d a (String.◌∷◌ c b)) ∙ cons-not_blank d (a ++ String.◌∷◌ c b)

module _ (net : NetPackage) (trusted : List net.Network) (peer : String) where
  entry_decides-some :
      (entry : String)
      → is_trusted net trusted (trim_space entry) ≡ false
      → (ip : String) × (entry_decides net trusted peer entry ≡ some ip)
  unfolding entry_decides
  entry_decides-some entry h = elim (Option-cases (net.parse_ip (trim_space entry))) [
    | inl bad ↦ (peer, rw (bad, entry_decides) refl)
    | inr (address, good) ↦ (trim_space entry, rw (good, h, entry_decides) refl)
  ]

  last_decides-some :
      (entries : List String) (entry : String)
      → Memᴰ entry entries
      → is_trusted net trusted (trim_space entry) ≡ false
      → (ip : String) × (last_decides net trusted peer entries ≡ some ip)
  unfolding last_decides
  last_decides-some [] entry m h = elim m [ ]
  last_decides-some (e ∷ es) entry m h = elim (Option-cases (last_decides net trusted peer es)) [
    | inr (ip, later) ↦ (ip, rw (later, last_decides) refl)
    | inl nothing ↦ elim m [
      | Memᴰ.head same ↦
          let (ip, decided) =
            entry_decides-some e
              (subst (λ x. is_trusted net trusted (trim_space x) ≡ false) same h) in
          (ip, rw (nothing, last_decides) decided)
      | Memᴰ.tail further ↦ let (ip, later) = last_decides-some es entry further h in cc
    ]
  ]

  last_decides-append :
      (faked entries : List String) (ip : String)
      → last_decides net trusted peer entries ≡ some ip
      → last_decides net trusted peer (faked ++ᴸ entries) ≡ some ip
  unfolding last_decides
  last_decides-append [] entries ip h = h
  last_decides-append (f ∷ fs) entries ip h =
      rw (last_decides-append fs entries ip h, last_decides) refl

module _ (net : NetPackage) (trusted : List net.Network) where
  -- Where the X-Forwarded-For header that the proxies made is not blank and has an entry that
  -- is not a trusted proxy, whatever a client puts in front of it changes nothing: the address
  -- that the handshake is counted for is the same.
  pub client_ip-unspoofed :
      (remote_addr faked forwarded_for entry : String)
      → is_blank forwarded_for ≡ false
      → Memᴰ entry (split_at b',' forwarded_for)
      → is_trusted net trusted (trim_space entry) ≡ false
      → client_ip net trusted remote_addr (faked ++ String.◌∷◌ comma forwarded_for)
        ≡ client_ip net trusted remote_addr forwarded_for
  unfolding client_ip
  client_ip-unspoofed remote_addr faked forwarded_for entry given among outside =
      let peer = peer_of net trusted remote_addr in
      let (ip, decided) =
        last_decides-some net trusted peer (split_at b',' forwarded_for) entry among outside in
      let longer =
        ap (last_decides net trusted peer) (split_at-append b',' faked forwarded_for comma refl)
        ∙ last_decides-append net trusted peer (split_at b',' faked) (split_at b',' forwarded_for)
            ip decided in
      let blank = longer-not_blank faked forwarded_for comma in
      rw (given, blank, decided, longer, client_ip) refl
