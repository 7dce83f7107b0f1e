-- ===== src/Policy/Responses.antt =====
-- policy/response.rs: how a blocked query is answered, by the slot of the rule that blocks it.
use Prim.Native.String.{String}
use pari_ns.Prelude.{ℕ, Option, none, some, List}
use pari_ns.Prelude.Bytes.{nth}

pub data BlockResponse : Type 0 where
  nodata : BlockResponse
  null_ip : BlockResponse
  custom_ip : (ipv4 ipv6 : Option ℕ) → BlockResponse
  nxdomain : BlockResponse
  refused : BlockResponse

abbrev pub kind : BlockResponse → String
kind nodata = "nodata"
kind null_ip = "null_ip"
kind (custom_ip ipv4 ipv6) = "custom_ip"
kind nxdomain = "nxdomain"
kind refused = "refused"

pub record Responses : Type 0 where
  pub global : BlockResponse
  pub ttl : ℕ
  pub local_slots : ℕ
  pub slots : List (Option BlockResponse)

-- `Responses::get`.
unfoldable pub response_of : Responses → ℕ → BlockResponse
response_of responses slot = elim (nth slot responses.slots) [
  | none ↦ responses.global
  | some none ↦ responses.global
  | some (some response) ↦ response
]
