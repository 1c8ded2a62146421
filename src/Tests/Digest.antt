-- ===== src/Tests/Digest.antt =====
-- Digests of proxy/md5.c.
use lrued_redis_storage_iceb.Prelude.{
  ◌≡◌, refl, [], ◌∷◌, ◌++◌, arith, codes, length, replicate, ◌≤◌,
}
use lrued_redis_storage_iceb.Md5.Blocks.{joined}
use lrued_redis_storage_iceb.Md5.Padded.{feed, reference, md5_pieces}
use lrued_redis_storage_iceb.Md5.Types.{IsCtx, AllBytes, md5_types}
use lrued_redis_storage_iceb.Store.{sum_bytes}
use lrued_redis_storage_iceb.Md5.{
  Md5Ctx, md5_digest, md5_final, md5_update, md5_init, absorb, copy_at, transform_blocks,
  md5_transform, md5_encode, md5_decode, padding, round, round_1, round_2, round_3, round_4, mixed,
  rotate_left, md5_f, md5_g, md5_h, md5_i,
}

admin :
    md5_digest (replicate 64 7) (codes "admin")
    ≡ 0x21 ∷ 0x23 ∷ 0x2f ∷ 0x29 ∷ 0x7a ∷ 0x57 ∷ 0xa5 ∷ 0xa7 ∷ 0x43 ∷ 0x89 ∷ 0x4a ∷ 0x0e ∷ 0x4a
      ∷ 0x80 ∷ 0x1f ∷ 0xc3 ∷ []
unfolding md5_digest md5_final md5_update md5_init absorb copy_at transform_blocks md5_transform
    md5_encode md5_decode padding round round_1 round_2 round_3 round_4 mixed rotate_left md5_f
    md5_g md5_h md5_i
admin = refl

-- A text in two pieces, the first of which goes past a block.
md5_pieces_example :
    md5_final (feed (md5_init (replicate 64 7)) (replicate 70 97 ∷ codes "min" ∷ []))
    ≡ reference (replicate 70 97 ++ (codes "min" ++ []))
unfolding joined
md5_pieces_example =
    md5_pieces (replicate 64 7) (replicate 70 97 ∷ codes "min" ∷ []) refl
      (omega arith, (omega arith, tt))

abbrev fresh : Md5Ctx
fresh = md5_init (replicate 64 7)

fresh-IsCtx : IsCtx fresh
unfolding md5_init
fresh-IsCtx = record {
  count0_fits = omega arith;
  count1_fits = omega arith;
  state_fits = record {
    a_fits = omega arith;
    b_fits = omega arith;
    c_fits = omega arith;
    d_fits = omega arith;
  };
  buffer_size = refl;
  buffer_bytes = omega arith;
}

md5_types_example :
    IsCtx (md5_update fresh (codes "admin"))
    × (let digest = md5_final (md5_update fresh (codes "admin")) in
        (length digest ≡ 16) × AllBytes digest × (sum_bytes digest ≤ 4080))
md5_types_example = md5_types fresh (codes "admin") fresh-IsCtx (omega arith)
