-- ===== src/Buffer/Stream/Sizes.antt =====
-- `getFrontElementDataSize` and `getLastElementDataSize`, which do not test for an empty queue.
use mathlib.Core.List.{map-append}
use ashe.Base.{
  ℕ, ◌≡◌, refl, sym, ap, subst, ◌∙◌, ◌⊎◌, inl, inr, List, [], ◌∷◌, ◌++◌, none, some, length, map,
  All,
}
use ashe.Buffer.{QueueElem, BufferQueue, readable, split_last}
use ashe.Buffer.Invariant.{IsElem, IsValid, messages, length-readable, All-init}
use ashe.Buffer.Messages.{split_last-eq}
use ashe.Buffer.Stream.{get_front_element_data_size, get_last_element_data_size}

-- On an empty queue both calls read through a null pointer. On any other valid queue the first
-- returns the length of the first message, the second that of the last.
element_data_size-messages :
    (q : BufferQueue)
    → IsValid q
    → ((messages q ≡ [])
        × (get_front_element_data_size q ≡ none)
        × (get_last_element_data_size q ≡ none))
      ⊎ ((m : List ℕ) × (ms : List (List ℕ)) × (l : List ℕ) × (ls : List (List ℕ)) × (messages q
            ≡ m ∷ ms)
          × (get_front_element_data_size q ≡ some (length m))
          × (messages q ≡ ls ++ l ∷ [])
          × (get_last_element_data_size q ≡ some (length l)))
unfolding get_front_element_data_size get_last_element_data_size messages
element_data_size-messages q v = go q.elements refl
  where
    go :
        (es : List QueueElem)
        → q.elements ≡ es
        → ((messages q ≡ [])
            × (get_front_element_data_size q ≡ none)
            × (get_last_element_data_size q ≡ none))
          ⊎ ((m : List ℕ) × (ms : List (List ℕ)) × (l : List ℕ) × (ls : List (List ℕ)) × (messages q
                ≡ m ∷ ms)
              × (get_front_element_data_size q ≡ some (length m))
              × (messages q ≡ ls ++ l ∷ [])
              × (get_last_element_data_size q ≡ some (length l)))
    go [] h = inl (rw h, rw h, rw h)
    go (e ∷ es) h =
        let w : All IsElem (e ∷ es) = rw h at v.sound in
        let before = (split_last e es).0 in
        let last = (split_last e es).1 in
        let w' : All IsElem (before ++ last ∷ []) = subst (All IsElem) (split_last-eq e es) w in
        inr (
          readable e,
          map readable es,
          readable last,
          map readable before,
          rw h,
          rw h (ap some (sym (length-readable e w.0))),
          rw h (ap (map readable) (split_last-eq e es) ∙ map-append readable before (last ∷ [])),
          rw h (ap some (sym (length-readable last (All-init before (last ∷ []) w').1.0))),
        )
