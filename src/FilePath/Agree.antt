-- ===== src/FilePath/Agree.antt =====
-- writeGetPath of nginx/c/hash.c beside readGetPath, round by round.
use lrued_redis_storage_iceb.Prelude.{
  ℕ, zero, suc, ◌+◌, ◌/◌, ◌%◌, ◌&&◌, ◌≤◌, ◌<◌, ◌≡◌, refl, Option, none, some, [], ◌∷◌, ◌++◌, arith,
  length, length-append, Bool-cases, inl, inr, Option-cases, ◌⊎◌, ltb, leb, ◌==◌, append_assoc,
  append-nil, c_str, true,
}
use lrued_redis_storage_iceb.State.{Text}
use lrued_redis_storage_iceb.FilePath.{
  Env, url_size, write_digits, read_digits, file_hash, write_rounds, write_get_path, write_path_in,
  read_rounds, read_get_path, write_root, read_root,
}

-- The two loops over the digits of a level append the same.
write_digits-read_digits :
    (rounds anchor num : ℕ) → write_digits rounds anchor num ≡ read_digits rounds anchor num
unfolding write_digits read_digits
write_digits-read_digits zero anchor num = refl
write_digits-read_digits (suc rounds) anchor num =
    ground (arith, write_digits-read_digits rounds (anchor / 10) (num % (anchor / 10)))

module _ {W C : Type 0} (env : Env W C) where
  -- The two functions run over the same key, with `a` in the `url` of the writer and `b` in that of
  -- the reader: both are undefined, or both append one suffix, or it does not fit behind `a` only.
  data Agree (a b : Text) (r : Option (Text × W)) (r' : Option Text) : Type 0 where
    neither : r ≡ none → r' ≡ none → Agree a b r r'
    both :
        (s : Text) (w : W)
        → r ≡ some (a ++ s, w)
        → r' ≡ some (b ++ s)
        → length (a ++ s) < url_size
        → Agree a b r r'
    overrun :
        (s : Text) → r ≡ none → r' ≡ some (b ++ s) → url_size ≤ length (a ++ s) → Agree a b r r'

  extend :
      (a b piece : Text) {r : Option (Text × W)} {r' : Option Text}
      → Agree (a ++ piece) (b ++ piece) r r'
      → Agree a b r r'
  extend a b piece (neither e f) = neither e f
  extend a b piece (both s w e f h) =
      both (piece ++ s) w (rw (← append_assoc a piece s) e) (rw (← append_assoc b piece s) f)
        (rw (← append_assoc a piece s) h)
  extend a b piece (overrun s e f h) =
      overrun (piece ++ s) e (rw (← append_assoc b piece s) f) (rw (← append_assoc a piece s) h)

  -- The reader is undefined or only appends to `url`.
  read_rounds-appends :
      (rounds slot room : ℕ) (str b : Text)
      → (read_rounds env rounds slot room str b ≡ none)
        ⊎ ((s : Text) × (read_rounds env rounds slot room str b ≡ some (b ++ s)))
  unfolding read_rounds
  read_rounds-appends zero slot room str b = inr ([], rw append-nil refl)
  read_rounds-appends (suc rounds) slot room str b =
      elim (Option-cases (read_digits slot slot (file_hash env str slot))) [
        | inl e ↦ inl (rw (e, read_rounds) refl)
        | inr (ds, e) ↦
            let piece = ds ++ (47 ∷ []) in
            rw (e, read_rounds)
              (elim (Bool-cases
                (leb (length (str ++ ds)) room && ltb (length (b ++ piece)) url_size)) [
                  | inr over ↦ rw over (inl refl)
                  | inl fit ↦
                      rw fit (elim (read_rounds-appends rounds slot room (str ++ ds) (b ++ piece)) [
                        | inl f ↦ inl f
                        | inr (s, f) ↦ inr (piece ++ s, rw (← append_assoc b piece s) f)
                      ])
                ])
      ]

  -- The writer's `url` overruns in this round, whatever the reader's does in the rounds left.
  overruns :
      (a b piece : Text) (r' : Option Text)
      → url_size ≤ length (a ++ piece)
      → (r' ≡ none) ⊎ ((s : Text) × (r' ≡ some ((b ++ piece) ++ s)))
      → Agree a b none r'
  overruns a b piece r' long (inl f) = neither refl f
  overruns a b piece r' long (inr (s, f)) =
      overrun (piece ++ s) refl (rw (← append_assoc b piece s) f)
        (rw (← append_assoc a piece s) (omega (arith, length-append (a ++ piece) s)))

  rounds-Agree :
      (rounds slot room : ℕ) (str a b : Text) (w : W)
      → length a ≡ length b + 31
      → length a < url_size
      → Agree a b
          (write_rounds env rounds url_size slot room str a w)
          (read_rounds env rounds slot room str b)
  unfolding write_rounds read_rounds
  rounds-Agree zero slot room str a b w longer short =
      both [] w (rw append-nil refl) (rw append-nil refl) (rw append-nil short)
  rounds-Agree (suc rounds) slot room str a b w longer short =
      elim (Option-cases (read_digits slot slot (file_hash env str slot))) [
        | inl e ↦
            rw
              (
                write_digits-read_digits slot slot (file_hash env str slot),
                e,
                write_rounds,
                read_rounds,
              )
              (neither refl refl)
        | inr (ds, e) ↦
            let piece = ds ++ (47 ∷ []) in
            rw
              (
                write_digits-read_digits slot slot (file_hash env str slot),
                e,
                write_rounds,
                read_rounds,
              )
              (elim (Bool-cases (leb (length (str ++ ds)) room)) [
                | inr full ↦ rw full (neither refl refl)
                | inl room_left ↦
                    rw room_left (elim (Bool-cases (ltb (length (a ++ piece)) url_size)) [
                      | inl writer_fits ↦
                          let reader_fits : ltb (length (b ++ piece)) url_size ≡ true =
                            ground (arith, length-append a piece, length-append b piece) in
                          rw (writer_fits, reader_fits)
                            (extend a b piece (
                              rounds-Agree rounds slot room (str ++ ds) (a ++ piece) (b ++ piece) _
                                (omega (arith, length-append a piece, length-append b piece))
                                (ground arith)))
                      | inr writer_over ↦
                          rw writer_over (elim (Bool-cases (ltb (length (b ++ piece)) url_size)) [
                            | inr over ↦ rw over (neither refl refl)
                            | inl reader_fits ↦ rw reader_fits (
                                overruns a b piece _ (ground arith)
                                  (read_rounds-appends rounds slot room (str ++ ds) (b ++ piece)))
                          ])
                    ])
              ])
      ]

  -- For every key and slot the reader is undefined, and the writer with it, or it names directories
  -- behind its prefix: where they fit in `url` behind the writer's longer prefix, the writer names
  -- the same ones behind that prefix, and else the writer is undefined.
  pub paths_agree :
      (key : Text) (slot : ℕ) (w : W)
      → ((read_get_path env key slot ≡ none) × (write_get_path env key slot w ≡ none))
        ⊎ ((s : Text) × (read_get_path env key slot ≡ some (read_root ++ s))
            × (((length (write_root ++ s) + 1 ≤ url_size)
                  × ((w' : W) × (write_get_path env key slot w ≡ some (write_root ++ s, w'))))
                ⊎ ((url_size < length (write_root ++ s) + 1)
                    × (write_get_path env key slot w ≡ none))))
  unfolding write_get_path write_path_in read_get_path write_root read_root
  paths_agree key slot w = elim (Bool-cases (slot == 0)) [
    | inl no_slot ↦ inl (rw no_slot refl, rw no_slot refl)
    | inr some_slot ↦
        rw some_slot
          (elim (rounds-Agree 3 slot (9 + length (c_str key)) (c_str key) write_root read_root w
            refl (omega arith)) [
              | neither e f ↦ inl (f, e)
              | both s w' e f h ↦ inr (s, f, inl (omega (arith, h), (w', e)))
              | overrun s e f h ↦ inr (s, f, inr (omega (arith, h), e))
            ])
  ]
