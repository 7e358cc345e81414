-- ===== src/Acl.antt =====
-- internal/security/acl.go. Addresses, networks and what `net.ParseCIDR`, `net.ParseIP`,
-- `net.CIDRMask` and `IPNet.Contains` do with them are the parameters of the module.
pub mod Rules
use do_daemon.Prelude.{
  Bool, Bytes, List, Option, [], false, if◌then◌else◌, length, none, some, true, ℕ, ◌==◌, ◌>>=◌,
  ◌∷◌,
}

-- Of package `net`: `parse_cidr` gives the network of "a.b.c.d/n", `parse_ip` an address and whether
-- `To4` has it as an IPv4 address, and `host_net` the network of an address with a mask of `bits` ones.
pub record NetPackage (Ip : Type 0) (IpNet : Type 0) : Type 0 where
  pub parse_cidr : Bytes → Option IpNet
  pub parse_ip : Bytes → Option (Ip × Bool)
  pub host_net : Ip → ℕ → IpNet
  pub contains : IpNet → Ip → Bool

module _ {Ip : Type 0} {IpNet : Type 0} (p : NetPackage Ip IpNet) where
  -- `parseNets`, one entry.
  unfoldable pub parse_net : Bytes → Option IpNet
  parse_net e = elim (p.parse_cidr e) [
    | some n ↦ some n
    | none ↦ elim (p.parse_ip e) [
      | none ↦ none
      | some (ip, is_v4) ↦ some (p.host_net ip (if is_v4 then 32 else 128))
    ]
  ]

  unfoldable pub parse_nets : List Bytes → Option (List IpNet)
  unfolding parse_net
  parse_nets [] = some []
  parse_nets (e ∷ es) = do n ← parse_net e; ns ← parse_nets es; some (n ∷ ns)

  -- The loops over a list of networks.
  unfoldable pub any_contains : List IpNet → Ip → Bool
  any_contains [] addr = false
  any_contains (n ∷ ns) addr = if p.contains n addr then true else any_contains ns addr

pub data AclError : Type 0 where
  bad_allow_list bad_deny_list : AclError

pub data AclResult (IpNet : Type 0) : Type 0 where
  made : List IpNet → List IpNet → AclResult IpNet
  refused : AclError → AclResult IpNet

-- `*ACL`; `none` is `nil`. The lists are `allow` and `deny`.
abbrev pub Acl : Type 0 → Type 0
Acl IpNet = Option (List IpNet × List IpNet)

module _ {Ip : Type 0} {IpNet : Type 0} (p : NetPackage Ip IpNet) where
  unfoldable pub new_acl : List Bytes → List Bytes → AclResult IpNet
  unfolding parse_nets
  new_acl allow_list deny_list = elim (parse_nets p allow_list) [
    | none ↦ refused bad_allow_list
    | some allow ↦ elim (parse_nets p deny_list) [
      | none ↦ refused bad_deny_list
      | some deny ↦ made allow deny
    ]
  ]

  unfoldable pub allowed : Acl IpNet → Ip → Bool
  unfolding any_contains
  allowed none addr = true
  allowed (some (allow, deny)) addr =
      if any_contains p deny addr
      then false
      else if length allow == 0
      then true
      else any_contains p allow addr

unfoldable pub is_open : {IpNet : Type 0} → Acl IpNet → Bool
is_open none = true
is_open (some (allow, deny)) = length allow == 0
