-- ===== src/Moc/Storage/Runs.antt =====
-- What the storage machines that complete have sent.
use verimark_linux_driver.Common.{
  ◌≤◌, slice, length, replicate, map, sym, ok_eq, copy_inside, moc_invalid_data, fail_if, ltb,
  >>=-eq-ok, ◌≡◌, ◌≢◌, refl, ap, ◌∙◌, Option, none, some, List, [], ◌∷◌, ◌==◌, Outcome, ok, err,
  fault, Error, arith, Bool-cases, Option-cases, inl, inr, ◌⊎◌, ==→eq, proto, ℕ,
}
use verimark_linux_driver.Ssm.{
  Status, moved, Follows, Trace, drive, next_state, mark_completed, mark_failed, at, completed,
  undefined,
}
use verimark_linux_driver.Moc.Storage.{
  label_of, listed_print, ListState, ListCtx, listed_prints, list_parsed, on_list_done,
  list_ssm_handler, list_callback, DelState, DeleteCtx, del_info_parsed, on_del_info_done,
  on_del_delete_done, delete_ssm_handler, delete_callback, delete_run, list_get, del_info,
  del_delete, list_run,
}
use verimark_linux_driver.Moc.Prints.{Print, zero16, delete_target, build_print_data}
use verimark_linux_driver.Ssm.Runs.{drive_completed, drive_one_way}
use verimark_linux_driver.Moc.Commands.{obj_list_cmd, obj_info_cmd, delete_obj_cmd}
use verimark_linux_driver.Moc.Replies.{parse_obj_list, parse_obj_info}
use verimark_linux_driver.Moc.Replies.ObjList.{IsObjList, parse_obj_list-IsObjList}
use verimark_linux_driver.Moc.Io.{Request, Event, send}

-- The two commands of a deletion, byte by byte, and the events that they were answered with: the child is the 16
-- bytes from the 20th on of the first reply, and neither was answered with an error.
pub record Deleted (target : List ℕ) (events : List Event) (t : Trace DelState DeleteCtx Request)
    : Type 0 where
  pub child : List ℕ
  pub sent :
      t.requests
      ≡ send (0xa0 ∷ 2 ∷ 0 ∷ 0 ∷ 0 ∷ target) 0x34 ∷ send (0xa3 ∷ 1 ∷ 0 ∷ 0 ∷ 0 ∷ child) 4 ∷ []
  pub named : Event
  pub answered : Event
  pub rest : List Event
  pub both : events ≡ named ∷ answered ∷ rest
  pub no_error : (named.error ≡ none) × (answered.error ≡ none)
  pub told : (36 ≤ length named.resp) × (child ≡ slice 20 16 named.resp)

parse_obj_info-eq-ok :
    (resp child : List ℕ)
    → parse_obj_info resp ≡ ok child
    → (36 ≤ length resp) × (child ≡ slice 20 16 resp)
unfolding parse_obj_info
parse_obj_info-eq-ok resp child h =
    let (u, long, h1) = >>=-eq-ok (fail_if (ltb (length resp) 36) moc_invalid_data) _ h in
    let inside : 36 ≤ length resp = ground (arith, long) in
    (inside, ok_eq _ _ (sym h1 ∙ copy_inside resp 20 16 (omega (arith, inside))))

del_info_acts :
    (o : Outcome (List ℕ)) (c : DeleteCtx)
    → (((child : List ℕ) × (o ≡ ok child)
        × (del_info_parsed o c ≡ (record c { child = child }, next_state))))
      ⊎ (((x : Error) × ((del_info_parsed o c).1 ≡ mark_failed x))
          ⊎ ((del_info_parsed o c).1 ≡ undefined))
unfolding del_info_parsed
del_info_acts (ok child) c = inl (child, refl, refl)
del_info_acts (err x) c = inr (inl (x, refl))
del_info_acts fault c = inr (inr refl)

module _ (next : DelState → Option DelState) (order : Follows next del_info (del_delete ∷ [])) where
  abbrev after : DelState → Event → DeleteCtx → Status DelState
  after s e c = moved next s (delete_callback s e c).1

  info_moves :
      (e : Event) (c : DeleteCtx)
      → ((t : DelState)
          → after del_info e c ≡ at t
          → (t ≡ del_delete)
            × (e.error ≡ none)
            × (parse_obj_info e.resp ≡ ok (delete_callback del_info e c).0.child))
        × (after del_info e c ≢ completed)
  unfolding delete_callback on_del_info_done moved
  info_moves e c = elim (Option-cases e.error) [
    | inr (x, h) ↦ (λ t m. ground (arith, h, m), λ m. ground (arith, h, m))
    | inl h ↦ elim (del_info_acts (parse_obj_info e.resp) c) [
      | inl (child, p, a) ↦ (
        λ t m. (ground (arith, h, m, a, order), h, ground (arith, h, a, p)),
        λ m. ground (arith, h, m, a, order),
      )
      | inr (inl (x, a)) ↦ (λ t m. ground (arith, h, m, a), λ m. ground (arith, h, m, a))
      | inr (inr a) ↦ (λ t m. ground (arith, h, m, a), λ m. ground (arith, h, m, a))
    ]
  ]

  delete_done : (e : Event) (c : DeleteCtx) → after del_delete e c ≡ completed → e.error ≡ none
  unfolding delete_callback on_del_delete_done moved
  delete_done e c h = elim (Option-cases e.error) [ inr (x, n) ↦ ground (arith, h, n) | inl n ↦ n ]

  delete_moves : (e : Event) (c : DeleteCtx) (t : DelState) → after del_delete e c ≢ at t
  unfolding delete_callback on_del_delete_done moved
  delete_moves e c t h = elim (Option-cases e.error) [
    | inr (x, n) ↦ ground (arith, h, n)
    | inl n ↦ ground (arith, h, n)
  ]

  del_delete_completed :
      (events : List Event) (c : DeleteCtx)
      → (drive next delete_ssm_handler delete_callback events del_delete c).status ≡ completed
      → ((drive next delete_ssm_handler delete_callback events del_delete c).requests
          ≡ send (0xa3 ∷ 1 ∷ 0 ∷ 0 ∷ 0 ∷ c.child) 4 ∷ [])
        × ((e : Event) × (rest : List Event) × (events ≡ e ∷ rest) × (e.error ≡ none))
  del_delete_completed [] c h = unfold drive in cc
  del_delete_completed (e ∷ rest) c h =
      elim (drive_completed next delete_ssm_handler delete_callback e rest del_delete c h) [
        | inl (t, m, _, _) ↦ absurd (delete_moves e c t m)
        | inr (m, d) ↦ (
          rw d (unfold delete_ssm_handler in unfold delete_obj_cmd in refl),
          (e, rest, refl, delete_done e c m),
        )
      ]

  del_info_completed :
      (events : List Event) (c : DeleteCtx)
      → (drive next delete_ssm_handler delete_callback events del_info c).status ≡ completed
      → Deleted c.target_gid events
          (drive next delete_ssm_handler delete_callback events del_info c)
  del_info_completed [] c h = unfold drive in cc
  del_info_completed (e ∷ rest) c h =
      let (way, stop) = info_moves e c in
      let (h', d, m) =
        drive_one_way next delete_ssm_handler delete_callback e rest del_info del_delete c
          (λ u a. (way u a).0) stop h in
      let (_, none_, p) = way del_delete m in
      let (sent, (e2, rest2, shape, none2)) = del_delete_completed rest _ h' in
      record {
        child = (delete_callback del_info e c).0.child;
        sent = rw (d, sent) (unfold delete_ssm_handler in unfold obj_info_cmd in refl);
        named = e;
        answered = e2;
        rest = rest2;
        both = ap (λ k. e ∷ k) shape;
        no_error = (none_, none2);
        told = parse_obj_info-eq-ok e.resp _ p;
      }

  -- A deletion that completes has sent two commands and nothing else: the question for the object of
  -- the print's listed id, or of its minted one if that is zero, and the deletion of the child
  -- that the reply to the first names; both were answered without an error of the transfer. The
  -- status in the reply to the second is not looked at. `next` is libfprint's step, through the
  -- states in the order of the source.
  pub delete_completed :
      (print : Print) (target : List ℕ) (events : List Event) (t : Trace DelState DeleteCtx Request)
      → delete_target print ≡ some target
      → delete_run next print events ≡ ok t
      → t.status ≡ completed
      → Deleted target events t
  unfolding delete_run
  delete_completed print target events t h r st =
      let same : drive next delete_ssm_handler delete_callback events del_info
            (record { target_gid = target; child = zero16 })
          ≡ t =
        ground (arith, h, r) in
      rw⁻¹ same (del_info_completed events _ (ap (λ k. k.status) same ∙ st))

-- What a listing makes of an id of the reply: a print whose minted id is zero.
abbrev pub print_for : List ℕ → Print
print_for gid =
    some
      (record { finger = 1; minted_tid = replicate 16 0; list_gid = gid; user_id = label_of gid })

-- A listing that completes holds a print for each id of the reply to its one command, in their order.
pub record Listed (events : List Event) (t : Trace ListState ListCtx Request) : Type 0 where
  pub answered : Event
  pub rest : List Event
  pub ids : List (List ℕ)
  pub sent : t.requests ≡ send (0x9f ∷ 0x01 ∷ []) 0x400 ∷ []
  pub first : events ≡ answered ∷ rest
  pub no_error : answered.error ≡ none
  pub laid_out : IsObjList answered.resp ids
  pub listed : t.ctx.prints ≡ some (map print_for ids)

listed_prints-map : (ids : List (List ℕ)) → listed_prints ids ≡ map print_for ids
unfolding listed_prints listed_print build_print_data
listed_prints-map [] = refl
listed_prints-map (gid ∷ ids) = ap (λ k. print_for gid ∷ k) (listed_prints-map ids)

list_parsed_acts :
    (o : Outcome (ℕ × List (List ℕ))) (c : ListCtx)
    → ((ids : List (List ℕ)) × (o ≡ ok (0, ids))
        × (list_parsed o c ≡ (record { prints = some (listed_prints ids) }, mark_completed)))
      ⊎ (((x : Error) × ((list_parsed o c).1 ≡ mark_failed x)) ⊎ ((list_parsed o c).1 ≡ undefined))
unfolding list_parsed
list_parsed_acts (ok (st, ids)) c = elim (Bool-cases (st == 0)) [
  | inl good ↦ inl (ids, ap (λ n. ok (n, ids)) (==→eq st 0 good), rw good refl)
  | inr bad ↦ inr (inl (proto, rw bad refl))
]
list_parsed_acts (err x) c = inr (inl (x, refl))
list_parsed_acts fault c = inr (inr refl)

list_moves :
    (next : ListState → Option ListState) (e : Event) (c : ListCtx)
    → ((t : ListState) → moved next list_get (list_callback list_get e c).1 ≢ at t)
      × (moved next list_get (list_callback list_get e c).1 ≡ completed
          → (ids : List (List ℕ)) × (e.error ≡ none)
            × (parse_obj_list e.resp ≡ ok (0, ids))
            × ((list_callback list_get e c).0.prints ≡ some (listed_prints ids)))
unfolding list_callback on_list_done moved
list_moves next e c = elim (Option-cases e.error) [
  | inr (x, h) ↦ (λ t m. ground (arith, h, m), λ m. ground (arith, h, m))
  | inl h ↦ elim (list_parsed_acts (parse_obj_list e.resp) c) [
    | inl (ids, p, a) ↦ (λ t m. ground (arith, h, m, a), λ m. (ids, h, p, ground (arith, h, a)))
    | inr (inl (x, a)) ↦ (λ t m. ground (arith, h, m, a), λ m. ground (arith, h, m, a))
    | inr (inr a) ↦ (λ t m. ground (arith, h, m, a), λ m. ground (arith, h, m, a))
  ]
]

-- A listing that completes has sent the one command, whose reply has the status 0, a count, and behind them as
-- many ids of 16 bytes. It holds as many prints, one for each id in that order, with the id as the
-- listed one and zero as the minted one.
pub list_completed :
    (next : ListState → Option ListState) (events : List Event)
    → (list_run next events).status ≡ completed
    → Listed events (list_run next events)
unfolding list_run
list_completed next [] h = unfold drive in cc
list_completed next (e ∷ rest) h =
    elim (drive_completed next list_ssm_handler list_callback e rest list_get
      (record { prints = none }) h) [
        | inl (t, m, _, _) ↦ absurd ((list_moves next e _).0 t m)
        | inr (m, d) ↦
            let (ids, n, p, made) = (list_moves next e _).1 m in
            record {
              ids = ids;
              answered = e;
              rest = rest;
              sent = rw d (unfold list_ssm_handler in unfold obj_list_cmd in refl);
              first = refl;
              no_error = n;
              laid_out = parse_obj_list-IsObjList e.resp ids p;
              listed = rw d (made ∙ ap some (listed_prints-map ids));
            }
      ]
