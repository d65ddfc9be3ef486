-- ===== src/Node.antt =====
-- node.go: an execution target. `id` stands for the identity of the *Node pointer, `host` for the
-- host of its backend descriptor; the transport, scratch directory and ports are left out.
use torx.Base.{ℕ, String, not, if◌then◌else◌, str_eq}
use torx.Spec.{Resources}

pub record Node : Type 0 where
  pub id : ℕ
  pub name : String
  pub role : String
  pub addr : String
  pub host : String
  pub resources : Resources

abbrev pub default_node_addr : String
default_node_addr = "127.0.0.1"

-- `Addr`: the node's own address, else its backend's host, else the loopback.
unfoldable pub node_addr : Node → String
node_addr n =
    if not (str_eq n.addr "")
    then n.addr
    else if not (str_eq n.host "")
    then n.host
    else default_node_addr
