-- ===== src/Service/Output/Laws.antt =====
-- go/internal/service/execbounds.go: what the capped writer keeps of a stream.
use fado.Base.{
  sym, ◌∙◌, ℕ, zero, suc, ◌+◌, ◌-◌, ◌<◌, ◌≤◌, ◌≡◌, refl, List, [], ◌∷◌, ◌++◌, length, take, nat_eq,
  arith, append_assoc, append-nil, ap, length-append, length-take, take_all, take-append, min,
  concat,
}
use fado.Service.Output.{CappedWriter, new_capped_writer, write, captured, bound_output, write_all}

-- The writer has seen exactly the bytes of `seen`.
record Holds (seen : List ℕ) (w : CappedWriter) : Type 0 where
  kept : w.buf ≡ take w.max seen
  lost : w.dropped ≡ length seen - w.max

write-max : (p : List ℕ) (w : CappedWriter) → (write p w).max ≡ w.max
unfolding write
write-max p w = ground arith

write-buf :
    (p : List ℕ) (w : CappedWriter) → (write p w).buf ≡ w.buf ++ take (w.max - length w.buf) p
unfolding write
write-buf p w =
    let none_left : w.max - length w.buf ≡ 0 → w.buf ≡ w.buf ++ take (w.max - length w.buf) p =
      λ e. rw (e, append-nil w.buf) in
    let all : length p ≤ w.max - length w.buf
        → w.buf ++ p ≡ w.buf ++ take (w.max - length w.buf) p =
      λ le. rw (take_all (w.max - length w.buf) p le) in
    ground (arith, none_left, all)

write-dropped :
    (p : List ℕ) (w : CappedWriter)
    → (write p w).dropped ≡ w.dropped + (length p - (w.max - length w.buf))
unfolding write
write-dropped p w = ground arith

write-Holds : (seen p : List ℕ) (w : CappedWriter) → Holds seen w → Holds (seen ++ p) (write p w)
write-Holds seen p w h =
    let len : length w.buf ≡ min w.max (length seen) = rw h.kept (length-take w.max seen) in
    let room : w.max - length w.buf ≡ w.max - length seen = omega (arith, len) in
    record {
      kept = rw (write-max p w, write-buf p w, room, h.kept, take-append w.max seen p);
      lost =
          rw (write-max p w, write-dropped p w, room, h.lost) (omega (arith, length-append seen p));
    }

write_all-Holds :
    (ps : List (List ℕ)) (seen : List ℕ) (w : CappedWriter)
    → Holds seen w
    → Holds (seen ++ concat ps) (write_all ps w)
unfolding write_all
write_all-Holds [] seen w h = rw (append-nil seen) h
write_all-Holds (p ∷ ps) seen w h =
    rw (sym (append_assoc seen p (concat ps)))
      (write_all-Holds ps (seen ++ p) (write p w) (write-Holds seen p w h))

write_all-max : (ps : List (List ℕ)) (w : CappedWriter) → (write_all ps w).max ≡ w.max
unfolding write_all
write_all-max [] w = refl
write_all-max (p ∷ ps) w = write_all-max ps (write p w) ∙ write-max p w

new-Holds : (max : ℕ) → Holds [] (new_capped_writer max)
unfolding new_capped_writer
new-Holds zero = record { kept = refl; lost = refl }
new-Holds (suc n) = record { kept = refl; lost = omega arith }

captured-bound_output :
    (seen : List ℕ) (w : CappedWriter)
    → 0 < w.max
    → Holds seen w
    → captured w ≡ bound_output seen w.max
unfolding captured bound_output
captured-bound_output seen w some_room h =
    let fits : length seen ≤ w.max → w.buf ≡ seen = λ le. h.kept ∙ take_all w.max seen le in
    ground (arith, fits, h.kept, h.lost)

-- However a command's output is cut into writes, the capped writer reports what boundOutput makes of
-- the whole, at any ceiling above 0.
pub captured-write_all :
    (max : ℕ) (ps : List (List ℕ))
    → 0 < max
    → captured (write_all ps (new_capped_writer max)) ≡ bound_output (concat ps) max
unfolding new_capped_writer
captured-write_all max ps some_room =
    let w = write_all ps (new_capped_writer max) in
    let same : w.max ≡ max = write_all-max ps (new_capped_writer max) in
    captured-bound_output (concat ps) w (rw same some_room)
      (write_all-Holds ps [] (new_capped_writer max) (new-Holds max))
    ∙ ap (bound_output (concat ps)) same

-- The bytes that the writer keeps and those that it counts as dropped are together all that was
-- written, and it keeps no more than its ceiling.
pub written_in_full :
    (max : ℕ) (ps : List (List ℕ))
    → (length (write_all ps (new_capped_writer max)).buf
          + (write_all ps (new_capped_writer max)).dropped
        ≡ length (concat ps))
      × (length (write_all ps (new_capped_writer max)).buf ≤ max)
unfolding new_capped_writer
written_in_full max ps =
    let w = write_all ps (new_capped_writer max) in
    let same : w.max ≡ max = write_all-max ps (new_capped_writer max) in
    let h : Holds (concat ps) w = write_all-Holds ps [] (new_capped_writer max) (new-Holds max) in
    let len : length w.buf ≡ min w.max (length (concat ps)) =
      rw h.kept (length-take w.max (concat ps)) in
    (omega (arith, len, h.lost), omega (arith, len, same))
