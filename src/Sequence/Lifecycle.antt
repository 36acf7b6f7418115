-- ===== src/Sequence/Lifecycle.antt =====
-- `append_token` and `check_stop` of sequence.py.
use paged_serve.Prelude.{
  ℕ, ◌+◌, ◌≤◌, ◌<◌, ◌≡◌, ◌⊎◌, inl, inr, refl, arith, Bool, true, false, ◌&&◌, List, [], ◌∷◌, ◌++◌,
  some, length, length-append, count, ltb, leb, ◌==◌, Bool-cases,
}
use paged_serve.Sequence.{
  Sequence, FinishReason, output_len, append_token, check_stop, ends_with_stop, is_terminal,
}

-- No token of the list is a stop token.
abbrev pub no_stop : List ℕ → List ℕ → Bool
no_stop stops [] = true
no_stop stops (t ∷ ts) = (count t stops == 0) && no_stop stops ts

pub no_stop-append :
    (stops xs : List ℕ) (t : ℕ)
    → no_stop stops xs ≡ true
    → count t stops ≡ 0
    → no_stop stops (xs ++ t ∷ []) ≡ true
no_stop-append stops [] t h e = ground (arith, e)
no_stop-append stops (x ∷ xs) t h e =
    let rest = no_stop-append stops xs t in ground (arith, rest, e, h)

-- Only the last token is looked at.
pub ends_with_stop-append :
    (stops xs : List ℕ) (t : ℕ) → ends_with_stop (xs ++ t ∷ []) stops ≡ ltb 0 (count t stops)
unfolding ends_with_stop
ends_with_stop-append stops [] t = refl
ends_with_stop-append stops (x ∷ []) t = refl
ends_with_stop-append stops (x ∷ y ∷ xs) t = ends_with_stop-append stops (y ∷ xs) t

-- A sequence that may get a token: it has no stop token and is below its cap.
pub record IsGoing (s : Sequence) : Type 0 where
  pub unfinished : is_terminal s.status ≡ false
  pub clean : no_stop s.stop_token_ids s.output_token_ids ≡ true
  pub below : output_len s < s.max_tokens

-- Why a sequence has ended with the token.
abbrev pub EndedBy : ℕ → Sequence → Type 0
EndedBy token_id s =
    ((s.finish_reason ≡ some FinishReason.stop)
      × (0 < count token_id s.stop_token_ids)
      × (output_len s ≤ s.max_tokens))
    ⊎ ((s.finish_reason ≡ some FinishReason.length_cap)
        × (no_stop s.stop_token_ids s.output_token_ids ≡ true)
        × (output_len s ≡ s.max_tokens))

-- If a sequence that is not finished has no stop token in its output and is below its cap, then
-- `append_token` and `check_stop` add the token and either answer no, and all of this holds
-- again, or answer yes and finish the sequence: with the reason `stop`, a stop token as the last
-- one and no more tokens than the cap, or with the reason `length`, as many tokens as the cap and
-- no stop token.
pub check_stop-append_token :
    (s : Sequence) (token_id : ℕ)
    → IsGoing s
    → let r = check_stop (append_token s token_id) in
      ((r.1).output_token_ids ≡ s.output_token_ids ++ token_id ∷ [])
      × (((r.0 ≡ false) × IsGoing r.1)
          ⊎ ((r.0 ≡ true) × (is_terminal (r.1).status ≡ true) × EndedBy token_id r.1))
unfolding check_stop append_token is_terminal
check_stop-append_token s token_id h =
    let output = s.output_token_ids ++ token_id ∷ [] in
    let size : length output ≡ output_len s + 1 =
      length-append s.output_token_ids (token_id ∷ []) in
    let last = ends_with_stop-append s.stop_token_ids s.output_token_ids token_id in
    elim (Bool-cases (ltb 0 (count token_id s.stop_token_ids))) [
      | inl stops ↦
          rw (last, stops)
            (
              refl,
              inr (refl, refl, inl (refl, ground (arith, stops), omega (arith, size, h.below))),
            )
      | inr goes ↦
          let clean : no_stop s.stop_token_ids output ≡ true =
            no_stop-append s.stop_token_ids s.output_token_ids token_id h.clean
              (ground (arith, goes)) in
          elim (Bool-cases (leb s.max_tokens (length output))) [
            | inl cap ↦
                let full : length output ≡ s.max_tokens = ground (arith, cap, size, h.below) in
                rw (last, goes, cap) (refl, inr (refl, refl, inr (refl, clean, full)))
            | inr more ↦
                let room : length output < s.max_tokens = ground (arith, more) in
                let next : IsGoing (append_token s token_id) = record {
                  unfinished = h.unfinished;
                  clean = clean;
                  below = room;
                } in
                rw (last, goes, more) (refl, inl (refl, next))
          ]
    ]
