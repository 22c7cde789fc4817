-- ===== src/Admin/Endpoint.antt =====
-- backend/shared/util/ssrf.go. url.Parse and the resolver are parameters; the address ranges are those of
-- package net.
use chainmesh.Base.{
  ℕ, ◌/◌, ◌%◌, ◌≡◌, refl, String, Bool, true, false, not, ◌&&◌, ◌||◌, Option, none, some, List, [],
  ◌∷◌, ◌==◌, leb, eqb, if◌then◌else◌,
}

-- net.IP: four bytes, which an IPv4-mapped address also is, or eight groups of 16 bits.
pub data Ip : Type 0 where
  v4 : (a b c d : ℕ) → Ip
  v6 : (g₁ g₂ g₃ g₄ g₅ g₆ g₇ g₈ : ℕ) → Ip

all_zero : ℕ → ℕ → ℕ → ℕ → ℕ → ℕ → ℕ → Bool
all_zero a b c d e f g = eqb a 0 && eqb b 0 && eqb c 0 && eqb d 0 && eqb e 0 && eqb f 0 && eqb g 0

is_loopback : Ip → Bool
is_loopback (v4 a b c d) = eqb a 127
is_loopback (v6 a b c d e f g h) = all_zero a b c d e f g && eqb h 1

is_link_local_unicast : Ip → Bool
is_link_local_unicast (v4 a b c d) = eqb a 169 && eqb b 254
is_link_local_unicast (v6 a b c d e f g h) = leb 65152 a && leb a 65215

is_link_local_multicast : Ip → Bool
is_link_local_multicast (v4 a b c d) = eqb a 224 && eqb b 0 && eqb c 0
is_link_local_multicast (v6 a b c d e f g h) = eqb (a / 256) 255 && eqb (a % 16) 2

is_private : Ip → Bool
is_private (v4 a b c d) = eqb a 10 || (eqb a 172 && eqb (b / 16) 1) || (eqb a 192 && eqb b 168)
is_private (v6 a b c d e f g h) = leb 64512 a && leb a 65023

is_multicast : Ip → Bool
is_multicast (v4 a b c d) = eqb (a / 16) 14
is_multicast (v6 a b c d e f g h) = eqb (a / 256) 255

is_unspecified : Ip → Bool
is_unspecified (v4 a b c d) = eqb a 0 && eqb b 0 && eqb c 0 && eqb d 0
is_unspecified (v6 a b c d e f g h) = all_zero a b c d e f g && eqb h 0

-- ip.Equal(net.ParseIP("::1"))
is_one : Ip → Bool
is_one (v4 a b c d) = false
is_one (v6 a b c d e f g h) = all_zero a b c d e f g && eqb h 1

-- isRestrictedIP
unfoldable pub is_restricted : Ip → Bool
unfolding all_zero is_loopback is_link_local_unicast is_link_local_multicast is_private is_multicast
    is_unspecified is_one
is_restricted ip =
    is_loopback ip
    || is_link_local_unicast ip
    || is_link_local_multicast ip
    || is_private ip
    || is_multicast ip
    || is_unspecified ip
    || is_one ip

-- The environment, url.Parse with its scheme and host name, net.ParseIP and net.LookupIP.
pub record Resolver : Type 0 where
  pub skip : Bool
  pub parse_url : String → Option (String × String)
  pub parse_ip : String → Option Ip
  pub lookup_ip : String → Option (List Ip)

none_restricted : List Ip → Bool
none_restricted [] = true
none_restricted (ip ∷ ips) = not (is_restricted ip) && none_restricted ips

looked_up : Option (List Ip) → Bool
looked_up none = false
looked_up (some ips) = none_restricted ips

host_allowed : Option Ip → Bool → Bool
host_allowed (some ip) rest = not (is_restricted ip)
host_allowed none rest = rest

url_allowed : Resolver → Option (String × String) → Bool
url_allowed net none = false
url_allowed net (some (scheme, host)) =
    if not (scheme == "http" || scheme == "https")
    then false
    else if host == ""
    then false
    else host_allowed (net.parse_ip host) (looked_up (net.lookup_ip host))

-- ValidateRPCEndpoint: is there no error?
unfoldable pub validate_rpc_endpoint : Resolver → String → Bool
unfolding none_restricted looked_up host_allowed url_allowed
validate_rpc_endpoint net endpoint =
    if net.skip then true else url_allowed net (net.parse_url endpoint)

abbrev test_net : Resolver
test_net = record {
  skip = false;
  parse_url = λ u. some ("http", u);
  parse_ip = λ h.
      if h == "172.31.0.1"
      then some (v4 172 31 0 1)
      else if h == "172.32.0.1"
      then some (v4 172 32 0 1)
      else none;
  lookup_ip = λ h. some (v4 1 1 1 1 ∷ v6 0 0 0 0 0 0 0 1 ∷ []);
}

private_fails : validate_rpc_endpoint test_net "172.31.0.1" ≡ false
unfolding validate_rpc_endpoint is_restricted
private_fails = refl

public_passes : validate_rpc_endpoint test_net "172.32.0.1" ≡ true
unfolding validate_rpc_endpoint is_restricted
public_passes = refl

localhost_fails : validate_rpc_endpoint test_net "localhost" ≡ false
unfolding validate_rpc_endpoint is_restricted
localhost_fails = refl
