-- ===== src/Cot/Grouping.antt =====
-- The size and the content of a bounded group. (cot/bytes.ts)
use dreamux.Base.{
  ℕ, ◌+◌, ◌-◌, ◌≤◌, ◌<◌, ◌≡◌, refl, sym, ap, ◌∙◌, subst, ◌⊎◌, inl, inr, List, [], ◌∷◌, ◌++◌, ltb,
  nat_eq, length, length-append, append_nil, append_assoc, Bool-cases, arith,
}
use dreamux.Base.Result.{returned}
use dreamux.Cot.Group.{
  EventCosts, Accepted, cot_event_bytes, total_bytes, checked_event, accept_within, make_room,
  reversed_onto, bounded_text_message_event_group, text_message_event_group_max_bytes,
}

module _ {Event : Type 0} (costs : EventCosts Event) where
  total_bytes-append :
      (xs ys : List Event)
      → total_bytes costs (xs ++ ys) ≡ total_bytes costs xs + total_bytes costs ys
  total_bytes-append [] ys = omega arith
  total_bytes-append (x ∷ xs) ys = omega (arith, total_bytes-append xs ys)

  total_bytes-reversed_onto :
      (xs ys : List Event)
      → total_bytes costs (reversed_onto costs xs ys) ≡ total_bytes costs xs + total_bytes costs ys
  total_bytes-reversed_onto [] ys = omega arith
  total_bytes-reversed_onto (x ∷ xs) ys = omega (arith, total_bytes-reversed_onto xs (x ∷ ys))

  reversed_onto_twice :
      (xs ys zs : List Event)
      → reversed_onto costs (reversed_onto costs xs ys) zs ≡ reversed_onto costs ys (xs ++ zs)
  reversed_onto_twice [] ys zs = refl
  reversed_onto_twice (x ∷ xs) ys zs = reversed_onto_twice xs (x ∷ ys) zs

  reversed_onto-append :
      (xs ys zs : List Event)
      → reversed_onto costs (xs ++ ys) zs ≡ reversed_onto costs ys (reversed_onto costs xs zs)
  reversed_onto-append [] ys zs = refl
  reversed_onto-append (x ∷ xs) ys zs = reversed_onto-append xs ys (x ∷ zs)

  reversed_onto_tail :
      (xs ys zs : List Event) → reversed_onto costs xs (ys ++ zs) ≡ reversed_onto costs xs ys ++ zs
  reversed_onto_tail [] ys zs = refl
  reversed_onto_tail (x ∷ xs) ys zs = reversed_onto_tail xs (x ∷ ys) zs

  length-reversed_onto :
      (xs ys : List Event) → length (reversed_onto costs xs ys) ≡ length xs + length ys
  length-reversed_onto [] ys = omega arith
  length-reversed_onto (x ∷ xs) ys = omega (arith, length-reversed_onto xs (x ∷ ys))

  -- What the first loop accepts of the contents, and why it stopped.
  record IsAccepted (a : Accepted Event) (es kept rest : List Event) (after : Accepted Event)
      : Type 0 where
    parts : kept ++ rest ≡ es
    newest_first : after.events ≡ reversed_onto costs kept a.events
    measured : after.spent ≡ a.spent + total_bytes costs kept
    within : after.spent ≤ text_message_event_group_max_bytes
    stopped : (rest ≡ []) ⊎ (text_message_event_group_max_bytes < a.spent + total_bytes costs es)

  accept_within-IsAccepted :
      (a : Accepted Event) (es : List Event)
      → a.spent ≤ text_message_event_group_max_bytes
      → (kept : List Event) × (rest : List Event) × IsAccepted a es kept rest
          (accept_within costs a es)
  unfolding accept_within
  accept_within-IsAccepted a [] h = (
    [],
    [],
    record {
      parts = refl;
      newest_first = refl;
      measured = omega arith;
      within = h;
      stopped = inl refl;
    },
  )
  accept_within-IsAccepted a (e ∷ es) h =
      elim (Bool-cases
        (ltb text_message_event_group_max_bytes (a.spent + cot_event_bytes costs e))) [
          | inl over ↦
              rw (accept_within, over)
                (
                  [],
                  e ∷ es,
                  record {
                    parts = refl;
                    newest_first = refl;
                    measured = omega arith;
                    within = h;
                    stopped = inr (ground arith);
                  },
                )
          | inr room ↦
              let next : Accepted Event = record {
                spent = a.spent + cot_event_bytes costs e;
                events = e ∷ a.events;
              } in
              let later = accept_within-IsAccepted next es (ground arith) in
              rw (accept_within, room)
                (
                  e ∷ later.0,
                  later.1,
                  record {
                    parts = ap (λ l. e ∷ l) later.2.parts;
                    newest_first = later.2.newest_first;
                    measured = omega (arith, later.2.measured);
                    within = later.2.within;
                    stopped = elim later.2.stopped [
                      | inl none_left ↦ inl none_left
                      | inr over ↦ inr (omega (arith, over))
                    ];
                  },
                )
        ]

  make_room_lem :
      (marker_bytes boundary spent : ℕ) (events : List Event)
      → spent ≡ boundary + total_bytes costs events
      → boundary + marker_bytes ≤ text_message_event_group_max_bytes
      → (boundary + total_bytes costs (make_room costs marker_bytes spent events) + marker_bytes
          ≤ text_message_event_group_max_bytes)
        × ((dropped : List Event) × (dropped ++ make_room costs marker_bytes spent events ≡ events))
  unfolding make_room
  make_room_lem m b spent [] e h = (omega (arith, h), ([], refl))
  make_room_lem m b spent (x ∷ events) e h =
      let fewer = make_room_lem m b (spent - cot_event_bytes costs x) events (omega (arith, e)) h in
      elim (Bool-cases (ltb text_message_event_group_max_bytes (spent + m))) [
        | inl over ↦ rw (make_room, over) (fewer.0, (x ∷ fewer.1.0, ap (λ l. x ∷ l) fewer.1.1))
        | inr room ↦ rw (make_room, room) (ground (arith, e), ([], refl))
      ]

  abbrev group_bytes : Event → List Event → Event → ℕ
  group_bytes start contents end =
      cot_event_bytes costs start + total_bytes costs contents + cot_event_bytes costs end

  -- The group is whole where it fits, and otherwise cut after a prefix and marked.
  abbrev pub IsBounded : Event → List Event → Event → Event → List Event → Type 0
  IsBounded start contents end marker group =
      (total_bytes costs group ≤ text_message_event_group_max_bytes)
      × (((group_bytes start contents end ≤ text_message_event_group_max_bytes)
            × (group ≡ start ∷ contents ++ end ∷ []))
          ⊎ ((text_message_event_group_max_bytes < group_bytes start contents end)
              × ((kept : List Event) × (rest : List Event) × (kept ++ rest ≡ contents)
                  × (group ≡ start ∷ kept ++ marker ∷ end ∷ []))))

  reversed_kept : (kept : List Event) → reversed_onto costs (reversed_onto costs kept []) [] ≡ kept
  reversed_kept kept = reversed_onto_twice kept [] [] ∙ append_nil kept

  whole-IsBounded :
      (start end marker : Event) (contents kept rest : List Event)
      → kept ++ rest ≡ contents
      → length kept ≡ length contents
      → cot_event_bytes costs start + cot_event_bytes costs end + total_bytes costs kept
        ≤ text_message_event_group_max_bytes
      → IsBounded start contents end marker
          (start ∷ reversed_onto costs (reversed_onto costs kept []) (end ∷ []))
  whole-IsBounded start end marker contents kept rest parts same le =
      let nothing = no_rest rest (omega (arith, length-append kept rest, ap length parts, same)) in
      let all : kept ≡ contents =
        sym (append_nil kept) ∙ ap (λ r. kept ++ r) (sym nothing) ∙ parts in
      let shape = reversed_onto_twice kept [] (end ∷ []) ∙ ap (λ k. k ++ end ∷ []) all in
      let cost = total_bytes-append contents (end ∷ []) in
      let le' =
        subst
          (λ k.
            cot_event_bytes costs start + cot_event_bytes costs end + total_bytes costs k
            ≤ text_message_event_group_max_bytes)
          all le in
      rw (shape) (omega (arith, cost, le'), inl (omega (arith, le'), refl))
    where
      no_rest : (xs : List Event) → length xs ≡ 0 → xs ≡ []
      no_rest [] h = refl
      no_rest (x ∷ xs) h = ground arith

  cut-IsBounded :
      (start end marker : Event) (contents kept rest newest : List Event)
      → kept ++ rest ≡ contents
      → text_message_event_group_max_bytes < group_bytes start contents end
      → (dropped : List Event) → dropped ++ newest ≡ reversed_onto costs kept []
      → cot_event_bytes costs start
          + cot_event_bytes costs end
          + total_bytes costs newest
          + cot_event_bytes costs marker
        ≤ text_message_event_group_max_bytes
      → IsBounded start contents end marker (start ∷ reversed_onto costs newest (marker ∷ end ∷ []))
  cut-IsBounded start end marker contents kept rest newest parts over dropped split le =
      let prefix = reversed_onto costs newest [] in
      let gone = reversed_onto costs dropped [] in
      let pieces : prefix ++ gone ≡ kept =
        sym (reversed_onto_tail newest [] gone)
        ∙ sym (reversed_onto-append dropped newest [])
        ∙ ap (λ l. reversed_onto costs l []) split
        ∙ reversed_kept kept in
      (
        omega (arith, le, total_bytes-reversed_onto newest (marker ∷ end ∷ [])),
        inr (
          over,
          (
            prefix,
            gone ++ rest,
            sym (append_assoc prefix gone rest) ∙ ap (λ k. k ++ rest) pieces ∙ parts,
            ap (λ l. start ∷ l) (reversed_onto_tail newest [] (marker ∷ end ∷ [])),
          ),
        ),
      )

  -- If the marker's event passes its own check and the two ends leave room for it, a group is returned;
  -- it costs at most the bound; where all fits it is whole, and otherwise it is a prefix of the
  -- contents and the marker between the two ends.
  pub bounded_group_lem :
      (start : Event) (contents : List Event) (end marker : Event)
      → checked_event costs marker ≡ returned marker
      → cot_event_bytes costs start + cot_event_bytes costs end + cot_event_bytes costs marker
        ≤ text_message_event_group_max_bytes
      → (group : List Event) × (bounded_text_message_event_group costs start contents end marker
          ≡ returned group)
        × IsBounded start contents end marker group
  unfolding bounded_text_message_event_group
  bounded_group_lem start contents end marker checked le =
      let boundary = cot_event_bytes costs start + cot_event_bytes costs end in
      let blank : Accepted Event = record { spent = boundary; events = [] } in
      let after = accept_within costs blank contents in
      let first = accept_within-IsAccepted blank contents (omega (arith, le)) in
      let kept = first.0 in
      let rest = first.1 in
      let v = first.2 in
      let room =
        make_room_lem (cot_event_bytes costs marker) boundary after.spent after.events
          (omega (
            arith,
            v.measured,
            ap (total_bytes costs) v.newest_first,
            total_bytes-reversed_onto kept [],
          ))
          le in
      let counted = ap length v.newest_first ∙ length-reversed_onto kept [] in
      elim (Bool-cases (nat_eq (length after.events) (length contents))) [
        | inl all ↦
            let same : length kept ≡ length contents = ground arith in
            (
              start ∷ reversed_onto costs after.events (end ∷ []),
              rw (bounded_text_message_event_group, all) refl,
              rw (v.newest_first) (
                  whole-IsBounded start end marker contents kept rest v.parts same
                    (omega (arith, v.measured, v.within))),
            )
        | inr some_left ↦
            let newest = make_room costs (cot_event_bytes costs marker) after.spent after.events in
            let over : text_message_event_group_max_bytes < group_bytes start contents end =
              elim v.stopped [
                | inl nothing ↦
                    let same : length kept ≡ length contents =
                      sym (ap length (append_nil kept))
                      ∙ ap (λ r. length (kept ++ r)) (sym nothing)
                      ∙ ap length v.parts in
                    ground arith
                | inr more ↦ omega (arith, more)
              ] in
            (
              start ∷ reversed_onto costs newest (marker ∷ end ∷ []),
              rw (bounded_text_message_event_group, some_left, checked) refl,
              cut-IsBounded start end marker contents kept rest newest v.parts over room.1.0
                  (room.1.1 ∙ v.newest_first) (omega (arith, room.0)),
            )
      ]
