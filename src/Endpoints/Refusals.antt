-- ===== src/Endpoints/Refusals.antt =====
-- The requests that every handler of the collections refuses: payroll data without a payroll role, and
-- requests without a user.
use prime_detailer_backend.Base.{
  ℕ, String, false, not, ◌&&◌, ◌≤◌, ◌≡◌, ◌⊎◌, refl, Option, none, List, Bool-cases, inl, inr, arith,
}
use prime_detailer_backend.Base.Text.{includes, str_eq}
use prime_detailer_backend.Json.{Json}
use prime_detailer_backend.Collections.{
  is_array_collection, is_singleton_collection, singleton_entity_id,
}
use prime_detailer_backend.Endpoints.Handlers.{CollectionDomainHandlers}
use prime_detailer_backend.Endpoints.Controller.{
  Body, assert_pickup_drop_writes_allowed, Request, Response, assert_payroll_access,
  delete_collection_row, get_collection, get_collection_item, post_snapshot, put_collection_item,
  is_known, replied,
}

pub data Endpoint : Type 0 where
  get_list : Endpoint
  get_one : Endpoint
  snapshot : Endpoint
  put : Endpoint
  delete_row : Endpoint

module _ {Db : Type 0} (find_org : String → Option String) (list_branches : String → List String)
    (blocked : Option String) (schema_of : String → Option (Json → Option Json))
    (handlers : String → CollectionDomainHandlers Db) where
  unfoldable pub serve : Endpoint → Request → Db → Response × Db
  unfolding get_collection get_collection_item post_snapshot put_collection_item
      delete_collection_row
  serve get_list req db = get_collection find_org list_branches blocked schema_of handlers req db
  serve get_one req db =
      get_collection_item find_org list_branches blocked schema_of handlers req db
  serve snapshot req db = post_snapshot find_org list_branches blocked schema_of handlers req db
  serve put req db = put_collection_item find_org list_branches blocked schema_of handlers req db
  serve delete_row req db =
      delete_collection_row find_org list_branches blocked schema_of handlers req db

  -- A refusal, by a status of the client's fault, that changes nothing.
  abbrev pub IsRefused : Db → Response × Db → Type 0
  IsRefused db result =
      (code : ℕ) × (body : Body) × (400 ≤ code) × (code ≤ 403) × (result ≡ (replied code body, db))

  -- Who may not see payroll data gets none: without a payroll role, or without a user at all, every
  -- handler refuses the payroll collection and changes nothing.
  serve-payroll :
      (endpoint : Endpoint) (req : Request) (db : Db)
      → req.collection ≡ "payroll"
      → assert_payroll_access req.collection req.auth ≡ false
      → IsRefused db (serve endpoint req db)
  unfolding serve get_collection get_collection_item post_snapshot put_collection_item
      delete_collection_row is_array_collection is_singleton_collection
      assert_pickup_drop_writes_allowed includes
  serve-payroll get_list req db payroll refused =
      rw (refused, payroll) (403, _, omega arith, omega arith, refl)
  serve-payroll get_one req db payroll refused =
      rw (refused, payroll) (403, _, omega arith, omega arith, refl)
  serve-payroll snapshot req db payroll refused =
      rw payroll (400, _, omega arith, omega arith, refl)
  serve-payroll put req db payroll refused =
      elim (Bool-cases (str_eq req.entity_id singleton_entity_id)) [
        | inl own ↦ rw (refused, payroll, own) (403, _, omega arith, omega arith, refl)
        | inr other ↦ rw (payroll, other) (400, _, omega arith, omega arith, refl)
      ]
  serve-payroll delete_row req db payroll refused =
      rw payroll (400, _, omega arith, omega arith, refl)

  module _ (req : Request) (db : Db) (nobody : req.auth ≡ none) where
    replied-IsRefused :
        (code : ℕ) (body : Body) → 400 ≤ code → code ≤ 403 → IsRefused db (replied code body, db)
    replied-IsRefused code body low high = (code, body, low, high, refl)

    -- Without a user nothing is read or written: the answer is a refusal.
    serve-unauthorized : (endpoint : Endpoint) → IsRefused db (serve endpoint req db)
    unfolding serve get_collection get_collection_item post_snapshot put_collection_item
        delete_collection_row
    serve-unauthorized get_list = elim (Bool-cases (is_known req.collection)) [
      | inl known ↦ elim (Bool-cases (assert_payroll_access req.collection req.auth)) [
        | inl may ↦ rw (known, may, nobody) (replied-IsRefused 401 _ (omega arith) (omega arith))
        | inr may_not ↦ rw (known, may_not) (replied-IsRefused _ _ (omega arith) (omega arith))
      ]
      | inr unknown ↦ rw unknown (replied-IsRefused _ _ (omega arith) (omega arith))
    ]
    serve-unauthorized get_one = elim (Bool-cases (is_known req.collection)) [
      | inl known ↦ elim (Bool-cases (assert_payroll_access req.collection req.auth)) [
        | inl may ↦ rw (known, may, nobody) (replied-IsRefused 401 _ (omega arith) (omega arith))
        | inr may_not ↦ rw (known, may_not) (replied-IsRefused _ _ (omega arith) (omega arith))
      ]
      | inr unknown ↦ rw unknown (replied-IsRefused _ _ (omega arith) (omega arith))
    ]
    serve-unauthorized snapshot = elim (Bool-cases (is_array_collection req.collection)) [
      | inl array ↦ elim (Bool-cases (assert_pickup_drop_writes_allowed blocked req.collection)) [
        | inl open_now ↦ elim (Bool-cases (assert_payroll_access req.collection req.auth)) [
          | inl may ↦
              rw (array, open_now, may, nobody)
                (replied-IsRefused 401 _ (omega arith) (omega arith))
          | inr may_not ↦
              rw (array, open_now, may_not) (replied-IsRefused _ _ (omega arith) (omega arith))
        ]
        | inr shut ↦ rw (array, shut) (replied-IsRefused _ _ (omega arith) (omega arith))
      ]
      | inr other ↦ rw other (replied-IsRefused _ _ (omega arith) (omega arith))
    ]
    serve-unauthorized put = elim (Bool-cases (is_known req.collection)) [
      | inl known ↦
          elim (Bool-cases (
            is_singleton_collection req.collection
            && not (str_eq req.entity_id singleton_entity_id))) [
              | inl other_id ↦
                  rw (known, other_id) (replied-IsRefused _ _ (omega arith) (omega arith))
              | inr own_id ↦
                  elim (Bool-cases (assert_pickup_drop_writes_allowed blocked req.collection)) [
                    | inl open_now ↦
                        elim (Bool-cases (assert_payroll_access req.collection req.auth)) [
                          | inl may ↦
                              rw (known, own_id, open_now, may, nobody)
                                (replied-IsRefused 401 _ (omega arith) (omega arith))
                          | inr may_not ↦
                              rw (known, own_id, open_now, may_not)
                                (replied-IsRefused _ _ (omega arith) (omega arith))
                        ]
                    | inr shut ↦
                        rw (known, own_id, shut) (replied-IsRefused _ _ (omega arith) (omega arith))
                  ]
            ]
      | inr unknown ↦ rw unknown (replied-IsRefused _ _ (omega arith) (omega arith))
    ]
    serve-unauthorized delete_row = elim (Bool-cases (is_array_collection req.collection)) [
      | inl array ↦ elim (Bool-cases (assert_payroll_access req.collection req.auth)) [
        | inl may ↦ rw (array, may, nobody) (replied-IsRefused 401 _ (omega arith) (omega arith))
        | inr may_not ↦ rw (array, may_not) (replied-IsRefused _ _ (omega arith) (omega arith))
      ]
      | inr other ↦ rw other (replied-IsRefused _ _ (omega arith) (omega arith))
    ]

  -- A request without a user, and a request for payroll data without a payroll role, is refused by
  -- every handler with a status from 400 to 403, and changes nothing.
  pub serve-IsRefused :
      (endpoint : Endpoint) (req : Request) (db : Db)
      → (req.auth ≡ none)
        ⊎ ((req.collection ≡ "payroll") × (assert_payroll_access req.collection req.auth ≡ false))
      → IsRefused db (serve endpoint req db)
  serve-IsRefused endpoint req db (inl nobody) = serve-unauthorized req db nobody endpoint
  serve-IsRefused endpoint req db (inr (payroll, refused)) =
      serve-payroll endpoint req db payroll refused
