-- ===== src/Protocol/Examples.antt =====
-- The theorems about lib/protocol.js at concrete messages.
use node_red_contrib_pod_gat.Prelude.{◌≡◌, refl, true, some, all, codes, string_eq}
use node_red_contrib_pod_gat.Result.{ok, throws}
use node_red_contrib_pod_gat.Protocol.{Operation, parse_operation, is_service_char, is_name_char}
use node_red_contrib_pod_gat.Protocol.Envelope.{is_request, validate_envelope}
use node_red_contrib_pod_gat.Protocol.Text.{is_space, trim, index_of}
use node_red_contrib_pod_gat.Protocol.Operations.{IsKeyOf, parse_operation-IsKeyOf}

abbrev operation : Operation
operation = record { service = codes "crm"; operation = codes "find"; value = codes "crm/find" }

-- Spaces around a key are dropped.
trimmed_test : parse_operation (some (codes " crm/find ")) ≡ ok operation
unfolding parse_operation trim is_space index_of is_service_char is_name_char
trimmed_test = refl

-- A key with a second slash is refused.
slash_test :
    parse_operation (some (codes "crm/find/one"))
    ≡ throws (codes "operation contains unsupported characters")
unfolding parse_operation trim is_space index_of is_service_char is_name_char
slash_test = refl

parse_operation-IsKeyOf_example : IsKeyOf (codes " crm/find ") operation
parse_operation-IsKeyOf_example =
    parse_operation-IsKeyOf (codes " crm/find ") operation trimmed_test

service_test : all is_service_char (codes "crm") ≡ true
unfolding is_service_char
service_test = refl

name_test : all is_name_char (codes "find") ≡ true
unfolding is_name_char
name_test = refl

call_test : validate_envelope (some "call") (some "r1") (some (codes "crm/find")) ≡ ok tt
unfolding validate_envelope parse_operation trim is_space index_of is_service_char is_name_char
call_test = refl

kind_test : is_request (some "call") ≡ true
unfolding is_request
kind_test = refl
