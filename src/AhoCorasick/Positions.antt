-- ===== src/AhoCorasick/Positions.antt =====
-- The whole search (src/ac_offset.rs, `find_with_positions_bytes`) in bytes that are those of an automaton:
-- each position with what ends there.
use matchy.Base.{
  ℕ, suc, ◌+◌, ◌*◌, ◌<◌, ◌≡◌, ◌≢◌, ◌↔◌, refl, sym, ap, ◌∙◌, subst, arith, List, [], ◌∷◌, ◌++◌, ◌⊎◌,
  inl, inr, length, length-append, append_assoc, get_elem?, map, some, ok, ◌>>=◌,
}
use matchy.Base.Orders.{
  Member, here, later, Member-cases, Member-append, Member-append_left, Member-append_right,
}
use matchy.AhoCorasick.{BuilderState}
use matchy.AhoCorasick.Trie.{best}
use matchy.AhoCorasick.Paths.{backwards, length-backwards}
use matchy.AhoCorasick.Words.{backwards_split}
use matchy.AhoCorasick.Search.{
  AcAutomaton, next_node, ids_at, positions_from, find_with_positions_bytes,
}
use matchy.AhoCorasick.Walk.{Image, Chained, next_node-best, best_present}

-- What ends at a position of the text that lies behind `u`.
abbrev pub EndsAt : (ℕ → List ℕ → Type 0) → List ℕ → List ℕ → ℕ → ℕ → Type 0
EndsAt Ends u text end id =
    (a : List ℕ) × (b : List ℕ) × (a ++ b ≡ text)
    × (a ≢ [])
    × (end ≡ length u + length a)
    × Ends id (u ++ a)

Member-map :
    (pos : ℕ) (ids : List ℕ) (end id : ℕ)
    → Member {A = ℕ × ℕ} (end, id) (map (λ i. (pos, i)) ids)
    → (end ≡ pos) × Member id ids
Member-map pos [] end id m = elim m [ ]
Member-map pos (i ∷ ids) end id m = elim (Member-cases m) [
  | inl same ↦ (
    ap (λ (p : ℕ × ℕ). p.0) same,
    subst (λ n. Member n (i ∷ ids)) (sym (ap (λ (p : ℕ × ℕ). p.1) same)) here,
  )
  | inr old ↦ let (e, own) = Member-map pos ids end id old in (e, later own)
]

map-Member :
    (pos : ℕ) (ids : List ℕ) (id : ℕ)
    → Member id ids
    → Member {A = ℕ × ℕ} (pos, id) (map (λ i. (pos, i)) ids)
map-Member pos [] id m = elim m [ ]
map-Member pos (i ∷ ids) id m = elim (Member-cases m) [
  | inl same ↦
      subst (λ n. Member {A = ℕ × ℕ} (pos, id) ((pos, n) ∷ map (λ j. (pos, j)) ids)) same here
  | inr old ↦ later (map-Member pos ids id old)
]

module _ (Ends : ℕ → List ℕ → Type 0) (automaton : AcAutomaton) (states : List BuilderState)
    (image : Image automaton states) (chained : Chained states)
    (reports : (text : List ℕ) (now : BuilderState) (id : ℕ)
      → get_elem? states (best states (length text) (backwards text [])) ≡ some now
      → Member id now.outputs ↔ Ends id text) where
  positions-on :
      (fuel ch pos current next : ℕ) (text : List ℕ) (rest : List (ℕ × ℕ))
      → next_node fuel automaton current ch ≡ ok next
      → positions_from fuel automaton text (pos + 1) next ≡ ok rest
      → positions_from fuel automaton (ch ∷ text) pos current
        ≡ ok (map (λ id. (pos + 1, id)) (ids_at automaton next) ++ rest)
  unfolding positions_from
  positions-on fuel ch pos current next text rest moved found = rw (moved, ◌>>=◌, found) refl

  EndsAt-cons :
      (u text : List ℕ) (ch end id : ℕ)
      → EndsAt Ends (u ++ ch ∷ []) text end id
      → EndsAt Ends u (ch ∷ text) end id
  EndsAt-cons u text ch end id (a, b, whole, full, place, ends) = (
    ch ∷ a,
    b,
    ap (λ t. ch ∷ t) whole,
    λ e. absurd (cc),
    omega (arith, length-append u (ch ∷ [])),
    subst (Ends id) (append_assoc u (ch ∷ []) a) ends,
  )

  EndsAt-cases :
      (u text : List ℕ) (ch end id : ℕ)
      → EndsAt Ends u (ch ∷ text) end id
      → ((end ≡ length u + 1) × Ends id (u ++ ch ∷ [])) ⊎ EndsAt Ends (u ++ ch ∷ []) text end id
  EndsAt-cases u text ch end id ([], b, whole, full, place, ends) = absurd (full refl)
  EndsAt-cases u text ch end id (c ∷ [], b, whole, full, place, ends) =
      let same : c ≡ ch = cc in inl (omega arith, subst (λ n. Ends id (u ++ n ∷ [])) same ends)
  EndsAt-cases u text ch end id (c ∷ d ∷ a, b, whole, full, place, ends) =
      let same : c ≡ ch = cc in
      let rest : (d ∷ a) ++ b ≡ text = cc in
      inr (
        d ∷ a,
        b,
        rest,
        λ e. absurd (cc),
        omega (arith, length-append u (ch ∷ [])),
        subst (Ends id) (sym (append_assoc u (ch ∷ []) (d ∷ a)))
            (subst (λ n. Ends id (u ++ n ∷ d ∷ a)) same ends),
      )

  positions_from-EndsAt :
      (text u : List ℕ) (fuel : ℕ)
      → ((ch : ℕ) → Member ch text → ch < 256)
      → length u + length text < fuel
      → (ms : List (ℕ × ℕ)) × (positions_from fuel automaton text
            (length u)
            (best states (length u) (backwards u []) * 16)
          ≡ ok ms)
        × ((end id : ℕ) → Member {A = ℕ × ℕ} (end, id) ms ↔ EndsAt Ends u text end id)
  positions_from-EndsAt [] u fuel octets room = (
    [],
    unfold positions_from in refl,
    λ end id. (λ m. elim m [ ], λ (a, b, whole, full, _, _). absurd (nothing a b whole full)),
  )
    where
      nothing : (a b : List ℕ) → a ++ b ≡ [] → a ≢ [] → ⊥
      nothing [] b whole full = full refl
      nothing (x ∷ a) b whole full = cc
  positions_from-EndsAt (ch ∷ text) u fuel octets room =
      let v = u ++ ch ∷ [] in
      let size : length v ≡ suc (length u) = omega (arith, length-append u (ch ∷ [])) in
      let turned : backwards v [] ≡ ch ∷ backwards u [] = backwards_split u (ch ∷ []) in
      let low = octets ch here in
      let step_on =
        next_node-best automaton states image chained ch low (length u) (backwards u []) fuel
          (omega (arith, length-backwards u [])) (omega arith) in
      let (rest, found, meaning) =
        positions_from-EndsAt text v fuel (λ c m. octets c (later m)) (omega (arith, size)) in
      let current = best states (length v) (backwards v []) in
      let same : best states (suc (length u)) (ch ∷ backwards u []) ≡ current =
        ap (λ n. best states n (ch ∷ backwards u [])) (sym size)
        ∙ ap (best states (length v)) (sym turned) in
      let (now, there) =
        best_present automaton states image chained ch low (length v) (backwards v []) in
      let moved : next_node fuel automaton (best states (length u) (backwards u []) * 16) ch
          ≡ ok (current * 16) =
        step_on ∙ ap (λ n. ok (n * 16)) same in
      let found' : positions_from fuel automaton text (length u + 1) (current * 16) ≡ ok rest =
        subst (λ n. positions_from fuel automaton text n (current * 16) ≡ ok rest)
          (omega (arith, size)) found in
      let ids = image.ids current now there in
      (
        map (λ id. (length u + 1, id)) now.outputs ++ rest,
        positions-on fuel ch (length u) (best states (length u) (backwards u []) * 16)
              (current * 16) text rest moved found'
            ∙ ap (λ l. ok (map (λ id. (length u + 1, id)) l ++ rest)) ids,
        λ end id.
            let (down, up) = reports v now id there in
            let (down', up') = meaning end id in
            (
              λ m. elim (Member-append (map (λ i. (length u + 1, i)) now.outputs) rest m) [
                | inl own ↦
                    let (e, mine) = Member-map (length u + 1) now.outputs end id own in
                    (ch ∷ [], text, refl, λ x. absurd (cc), e, down mine)
                | inr old ↦ EndsAt-cons u text ch end id (down' old)
              ],
              λ ends. elim (EndsAt-cases u text ch end id ends) [
                | inl (e, own) ↦ Member-append_left rest (
                    subst
                      (λ n. Member {A = ℕ × ℕ} (n, id) (map (λ i. (length u + 1, i)) now.outputs))
                      (sym e) (map-Member (length u + 1) now.outputs id (up own)))
                | inr old ↦ Member-append_right (map (λ i. (length u + 1, i)) now.outputs) (up' old)
              ],
            ),
      )

  pub find_with_positions-EndsAt :
      (text : List ℕ) (fuel : ℕ)
      → ((ch : ℕ) → Member ch text → ch < 256)
      → length text < fuel
      → (ms : List (ℕ × ℕ)) × (find_with_positions_bytes fuel automaton text ≡ ok ms)
        × ((end id : ℕ) → Member {A = ℕ × ℕ} (end, id) ms ↔ EndsAt Ends [] text end id)
  unfolding find_with_positions_bytes best
  find_with_positions-EndsAt text fuel octets room =
      let (ms, found, meaning) = positions_from-EndsAt text [] fuel octets (omega arith) in
      let some_byte = image.some_byte in (ms, rw some_byte found, meaning)
