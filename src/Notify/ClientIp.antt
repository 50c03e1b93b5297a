-- ===== src/Notify/ClientIp.antt =====
-- clientip.go: the address that a WebSocket handshake is counted for by the rate limiter.
use Prim.Native.Char.{code}
use Prim.Native.String.{◌++◌}
use helpdesk_microservices.Base.{
  Bool, false, not, ◌||◌, ◌==◌, ◌=s=◌, Option, none, some, String, List, [], ◌∷◌, Result, ok, err,
  ◌>>=◌, if◌then◌else◌,
}
use helpdesk_microservices.Text.{split_at, trim_space}

-- Package net: addresses and networks, their texts, and whether a network has an address.
pub record NetPackage : Type 1 where
  pub Address : Type 0
  pub Network : Type 0
  pub parse_ip : String → Option Address
  pub is_v4 : Address → Bool
  pub parse_cidr : String → Option Network
  pub contains : Network → Address → Bool
  pub split_host : (host_port : String) → Option String

unfoldable pub has_slash : String → Bool
has_slash String.[] = false
has_slash (String.◌∷◌ c s) = code c == b'/' || has_slash s

abbrev pub is_blank : String → Bool
is_blank s = s =s= ""

module _ (net : NetPackage) where
  -- A bare address is a network of one host.
  unfoldable pub as_cidr : String → String
  unfolding has_slash
  as_cidr c = if has_slash c then c else (elim (net.parse_ip c) [
    | none ↦ c ++ "/128"
    | some ip ↦ if net.is_v4 ip then c ++ "/32" else c ++ "/128"
  ])

  -- SetTrustedProxies: the networks, or the entry that is none.
  unfoldable pub trusted_proxies : List String → Result String (List net.Network)
  unfolding as_cidr trim_space
  trusted_proxies [] = ok []
  trusted_proxies (c ∷ cs) =
      let rest = trusted_proxies cs in
      let cidr = as_cidr (trim_space c) in
      if is_blank (trim_space c)
      then rest
      else (elim (net.parse_cidr cidr) [ none ↦ err cidr | some n ↦ rest >>= λ ns. ok (n ∷ ns) ])

  abbrev pub in_any : List net.Network → net.Address → Bool
  in_any [] ip = false
  in_any (n ∷ ns) ip = net.contains n ip || in_any ns ip

  module _ (trusted : List net.Network) where
    unfoldable pub is_trusted : String → Bool
    is_trusted ip = elim (net.parse_ip ip) [ none ↦ false | some address ↦ in_any trusted address ]

    -- What one entry of the header decides: a malformed one the peer, one that is not a proxy itself.
    unfoldable pub entry_decides : (peer entry : String) → Option String
    unfolding is_trusted trim_space
    entry_decides peer entry =
        let ip = trim_space entry in
        elim (net.parse_ip ip) [
          | none ↦ some peer
          | some address ↦ if not (is_trusted ip) then some ip else none
        ]

    -- The loop from the right: the last entry that decides.
    unfoldable pub last_decides : (peer : String) → List String → Option String
    unfolding entry_decides
    last_decides peer [] = none
    last_decides peer (e ∷ es) =
        let later = last_decides peer es in
        elim later [ some ip ↦ some ip | none ↦ entry_decides peer e ]

    abbrev pub outermost : List String → String
    outermost [] = ""
    outermost (e ∷ es) = trim_space e

    unfoldable pub peer_of : (remote_addr : String) → String
    peer_of remote_addr = elim (net.split_host remote_addr) [
      | none ↦ remote_addr
      | some host ↦ host
    ]

    unfoldable pub client_ip : (remote_addr forwarded_for : String) → String
    unfolding peer_of is_trusted split_at last_decides trim_space
    client_ip remote_addr forwarded_for =
        let peer = peer_of remote_addr in
        let parts = split_at b',' forwarded_for in
        if not (is_trusted peer)
        then peer
        else if is_blank forwarded_for
        then peer
        else (elim (last_decides peer parts) [ some ip ↦ ip | none ↦ outermost parts ])
