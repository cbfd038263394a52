-- ===== src/Runtime/Rewrite.antt =====
-- The ids of requests that are forwarded: `rewrite_request_id` and `restore_response_id` of
-- runtime/__init__.py.
use mcp_multiplex.Prelude.{
  String, Bool, true, false, Option, none, some, ◌≡◌, ◌≢◌, ap, Bool-cases, inl, inr, arith,
  if◌then◌else◌, ◌==◌, ◌<>◌, take_text, eq_iff,
}
use mcp_multiplex.Json.{Json, Fields, null, boolean, number, text, array, object, field, end}
use mcp_multiplex.Json.Dict
use mcp_multiplex.Json.Dict.{get-set_same, get-set_other}
use mcp_multiplex.Exec.{proxy_error, Result, ok, err, Sha256, Clock}

pub record RequestIdRewrite : Type 0 where
  pub frontend_id : Json
  pub backend_id : String

unfoldable pub new_backend_request_id : Sha256 → Clock → String → String → Json → String
new_backend_request_id h c frontend_session_id backend_id frontend_id =
    "hb_"
    <> take_text 24 (
        h.of_json (
          object (
            field "backend_id" (text backend_id) (
              field "frontend_id" frontend_id (
                field "frontend_session_id" (text frontend_session_id)
                  (field "nonce" (text c.nonce) end))))))

unfoldable pub rewrite_request_id :
    Sha256 → Clock → Fields → String → String → Fields × Option RequestIdRewrite
rewrite_request_id h c payload frontend_session_id backend_id = elim (Dict.get "id" payload) [
  | none ↦ (payload, none)
  | some frontend_id ↦
      let id = new_backend_request_id h c frontend_session_id backend_id frontend_id in
      (
        Dict.set "id" (text id) payload,
        some (record { frontend_id = frontend_id; backend_id = id }),
      )
]

-- `value != t`, for a JSON value and a text
abbrev pub differs : Json → String → Bool
differs (text s) t = if s == t then false else true
differs _ t = true

unfoldable pub restore_response_id : Fields → Option RequestIdRewrite → Result Fields
restore_response_id payload none = ok payload
restore_response_id payload (some rewrite) = elim (Dict.get "id" payload) [
  | none ↦ ok payload
  | some id ↦
      if differs id rewrite.backend_id
      then err (proxy_error "backend response id did not match mapped request id")
      else ok (Dict.set "id" rewrite.frontend_id payload)
]

rewrite-eq :
    (h : Sha256) (c : Clock) (session backend : String) (payload : Fields) (id : Json)
    → Dict.get "id" payload ≡ some id
    → let new_id = new_backend_request_id h c session backend id in
      rewrite_request_id h c payload session backend ≡ (
        Dict.set "id" (text new_id) payload,
        some (record { frontend_id = id; backend_id = new_id }),
      )
unfolding rewrite_request_id
rewrite-eq h c session backend payload id sent = ground arith

restore-eq :
    (response : Fields) (id : Json) (new_id : String)
    → Dict.get "id" response ≡ some (text new_id)
    → restore_response_id response (some (record { frontend_id = id; backend_id = new_id }))
      ≡ ok (Dict.set "id" id response)
unfolding restore_response_id
restore-eq response id new_id echoed = ground (arith, eq_iff new_id new_id)

differs-eq : (x : Json) (t : String) → (differs x t ≡ false) → x ≡ text t
differs-eq (text s) t e = ap text ((eq_iff s t).0 (ground arith))
differs-eq null t e = ground arith
differs-eq (boolean b) t e = ground arith
differs-eq (number n) t e = ground arith
differs-eq (array xs) t e = ground arith
differs-eq (object fs) t e = ground arith

-- No response to a forwarded request is passed on under another request's id: a response that has
-- an id other than the one that was forwarded raises a RuntimeProxyError.
pub restore_response_id-refuses :
    (h : Sha256) (c : Clock) (session backend : String) (payload response : Fields)
    (id other : Json)
    → Dict.get "id" payload ≡ some id
    → Dict.get "id" response ≡ some other
    → other ≢ text (new_backend_request_id h c session backend id)
    → restore_response_id response (rewrite_request_id h c payload session backend).1
      ≡ err (proxy_error "backend response id did not match mapped request id")
restore_response_id-refuses h c session backend payload response id other sent got apart =
    let new_id = new_backend_request_id h c session backend id in
    rw (rewrite-eq h c session backend payload id sent) (elim (Bool-cases (differs other new_id)) [
      | inl d ↦ unfold restore_response_id in ground arith
      | inr e ↦ absurd (apart (differs-eq other new_id e))
    ])

-- A request that has an id is forwarded with only the id changed, to a new one. A response with
-- that id comes back with the id that the frontend sent, its other fields as they were.
pub restore-rewrite :
    (h : Sha256) (c : Clock) (session backend : String) (payload response : Fields) (id : Json)
    → Dict.get "id" payload ≡ some id
    → let new_id = new_backend_request_id h c session backend id in
      let (forwarded, rewrite) = rewrite_request_id h c payload session backend in
      Dict.get "id" response ≡ some (text new_id)
      → (Dict.get "id" forwarded ≡ some (text new_id))
        × ((k : String) → ("id" == k) ≡ false → Dict.get k forwarded ≡ Dict.get k payload)
        × ((restored : Fields) × (restore_response_id response rewrite ≡ ok restored)
            × (Dict.get "id" restored ≡ some id)
            × ((k : String) → ("id" == k) ≡ false → Dict.get k restored ≡ Dict.get k response))
restore-rewrite h c session backend payload response id sent echoed =
    let new_id = new_backend_request_id h c session backend id in
    rw (rewrite-eq h c session backend payload id sent) (
      get-set_same "id" (text new_id) payload,
      λ k apart. get-set_other "id" k (text new_id) payload apart,
      (
        Dict.set "id" id response,
        restore-eq response id new_id echoed,
        get-set_same "id" id response,
        λ k apart. get-set_other "id" k id response apart,
      ),
    )
