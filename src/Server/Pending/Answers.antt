-- ===== src/Server/Pending/Answers.antt =====
-- What the caller of a request receives.
use evsys.Common.{
  String, [], ap, false, get, get-put_ne, get-put_self, get-remove_self, if_false, int_has_eq,
  member, nat_has_eq, put, some, string_has_eq, true, ◌∙◌, ◌∷◌, ◌≡◌, ◌≢◌,
}
use evsys.Server.Pending.{
  Requests, receive, received_from, register_pending, release_pending, resolve_response, resolved,
  resolved_at,
}

-- The requests once the first answer is on the channel of its caller.
answered : String → String → Requests → Requests
answered id payload r = record r { pending = put id (payload ∷ []) (put id [] r.pending) }

first_answer :
    (id payload : String) (r : Requests)
    → resolve_response id payload (register_pending id r) ≡ resolved true (answered id payload r)
unfolding resolve_response register_pending answered resolved_at
first_answer id payload r =
    ap (λ o. resolved_at o id payload (register_pending id r)) (get-put_self id [] r.pending)

received_first :
    (id payload : String) (r : Requests)
    → receive id (answered id payload r) ≡ (
      some payload,
      record r { pending = put id [] (put id (payload ∷ []) (put id [] r.pending)) },
    )
unfolding receive answered received_from
received_first id payload r =
    ap (λ o. received_from o id (answered id payload r))
      (get-put_self id (payload ∷ []) (put id [] r.pending))

-- The answer to a request that was registered, and that is not one without a caller, reaches its
-- caller as it is, and no other request is touched; once the caller has released the request, a
-- further answer to it is unexpected.
pub answer_reaches_caller :
    (id payload again : String) (r : Requests)
    → member id r.fire_and_forget ≡ false
    → (r1 r2 : Requests) × (resolve_response id payload (register_pending id r) ≡ resolved true r1)
      × (receive id r1 ≡ (some payload, r2))
      × ((j : String) → id ≢ j → get j r2.pending ≡ get j r.pending)
      × (resolve_response id again (release_pending id r2) ≡ resolved false (release_pending id r2))
unfolding resolve_response release_pending resolved_at
answer_reaches_caller id payload again r absent =
    let r2 = record r { pending = put id [] (put id (payload ∷ []) (put id [] r.pending)) } in
    (
      answered id payload r,
      r2,
      first_answer id payload r,
      received_first id payload r,
      λ j ne.
          get-put_ne id j [] (put id (payload ∷ []) (put id [] r.pending)) ne
          ∙ get-put_ne id j (payload ∷ []) (put id [] r.pending) ne
          ∙ get-put_ne id j [] r.pending ne,
      ap (λ o. resolved_at o id again (release_pending id r2)) (get-remove_self id r2.pending)
          ∙ if_false _ _ absent,
    )
