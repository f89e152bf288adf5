-- ===== src/Schema/JsonRpc/Batch.antt =====
-- The batches of src/schema/json_rpc_schema.cpp.
use magpie_cpp.Prelude.Map.{Map}
use magpie_cpp.Value.{null, list, Value, Dict, push_back, Values, is_null, nil, cons}
use magpie_cpp.Prelude.Result.{Result, ◌>>=◌, Eff, throw, ok}
use magpie_cpp.Prelude.{Bool-cases, inr, inl, ap, ◌≡◌, if◌then◌else◌, refl}
use magpie_cpp.Schema.JsonRpc.{batch_reply, dispatch, dispatch_items, dispatch_single, MethodEntry}

-- The responses that are not null, in the order of the requests.
unfoldable pub answers_of : Values → Values
unfolding is_null
answers_of nil = nil
answers_of (cons v rest) = if is_null v then answers_of rest else cons v (answers_of rest)

unfoldable pub concat : Values → Values → Values
concat nil ys = ys
concat (cons x xs) ys = cons x (concat xs ys)

concat-push_back :
    (xs : Values) (y : Value) (ys : Values) → concat (push_back xs y) ys ≡ concat xs (cons y ys)
unfolding concat push_back
concat-push_back nil y ys = refl
concat-push_back (cons x xs) y ys = ap (cons x) (concat-push_back xs y ys)

concat-nil : (xs : Values) → concat xs nil ≡ xs
unfolding concat
concat-nil nil = refl
concat-nil (cons x xs) = ap (cons x) (concat-nil xs)

-- The reply that a client gets for these responses: none is null.
unfoldable pub reply_of : Values → Value
reply_of nil = null
reply_of (cons v rest) = list (cons v rest)

batch_reply-reply_of : (vs : Values) → batch_reply vs ≡ reply_of vs
unfolding batch_reply reply_of
batch_reply-reply_of nil = refl
batch_reply-reply_of (cons v rest) = refl

-- One more response joins what was collected, unless it is null.
collect :
    (v : Value) (responses : Values) (m : Result Values)
    → (do
      vs ← m
      ok (concat (if is_null v then responses else push_back responses v) (answers_of vs)))
      ≡ (do vs ← (do rest ← m; ok (cons v rest)); ok (concat responses (answers_of vs)))
unfolding answers_of
collect v responses (throw e) = refl
collect v responses (ok vs) = elim (Bool-cases (is_null v)) [
  | inl e ↦ rw (e, answers_of)
  | inr e ↦ rw (e, answers_of) (ap ok (concat-push_back responses v (answers_of vs)))
]

module _ {W H : Type 0} (invoke : H → Dict → Eff W Value) (methods : Map (MethodEntry H)) where
  -- The requests one after another, each in the world that the ones before it left.
  unfoldable pub run_all : Values → Eff W Values
  run_all nil w = (ok nil, w)
  run_all (cons item rest) w =
      let (r, w') = dispatch_single invoke methods item w in
      elim r [
        | ok v ↦ (let (rs, w'') = run_all rest w' in (do vs ← rs; ok (cons v vs), w''))
        | throw e ↦ (throw e, w')
      ]

  dispatch_items-run_all :
      (items responses : Values) (w : W)
      → dispatch_items invoke methods items responses w ≡ (
        (do vs ← (run_all items w).0; ok (concat responses (answers_of vs))),
        (run_all items w).1,
      )
  unfolding dispatch_items run_all answers_of concat
  dispatch_items-run_all nil responses w = rw (concat-nil responses)
  dispatch_items-run_all (cons item rest) responses w =
      go (dispatch_single invoke methods item w).0 refl
        (λ rs. dispatch_items-run_all rest rs (dispatch_single invoke methods item w).1)
    where
      go :
          (r : Result Value)
          → (dispatch_single invoke methods item w).0 ≡ r
          → ((rs : Values)
              → dispatch_items invoke methods rest rs (dispatch_single invoke methods item w).1 ≡ (
                (do
                  vs ← (run_all rest (dispatch_single invoke methods item w).1).0
                  ok (concat rs (answers_of vs))),
                (run_all rest (dispatch_single invoke methods item w).1).1,
              ))
          → dispatch_items invoke methods (cons item rest) responses w ≡ (
            (do vs ← (run_all (cons item rest) w).0; ok (concat responses (answers_of vs))),
            (run_all (cons item rest) w).1,
          )
      go (throw e) h ih = rw (h, dispatch_items, run_all)
      go (ok v) h ih = rw (h, dispatch_items, run_all, ih _, collect v responses)

  -- A batch is the run of its requests in order; the reply lists the responses that are not null,
  -- and is null when there is none. An exception that a handler lets through ends the batch.
  pub dispatch-batch :
      (items : Values) (w : W)
      → dispatch invoke methods (list items) w
        ≡ ((do vs ← (run_all items w).0; ok (reply_of (answers_of vs))), (run_all items w).1)
  unfolding dispatch concat
  dispatch-batch items w = rw (dispatch_items-run_all items nil w) (regroup (run_all items w).0)
    where
      regroup :
          (m : Result Values)
          → ◌≡◌ {A = Result Value × W}
              ((do rs ← (do vs ← m; ok (answers_of vs)); ok (batch_reply rs)), (run_all items w).1)
              ((do vs ← m; ok (reply_of (answers_of vs))), (run_all items w).1)
      regroup (throw e) = refl
      regroup (ok vs) = rw (batch_reply-reply_of (answers_of vs)) refl
