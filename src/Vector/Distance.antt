-- ===== src/Vector/Distance.antt =====
-- vector/vector.go: distances and scores, over the operations of a float.
use levelgraph.Prelude.{◌||◌, not, List, [], ◌∷◌, if◌then◌else◌, ◌==◌, length, map}
use levelgraph.Vector.Float.{Float}

module _ {W : Type 0} (F : Float W) where
  abbrev pub Vec : Type 0
  Vec = List W

  unfoldable pub normalize_score : W → W
  normalize_score distance =
      let low = if F.lt distance F.zero then F.zero else distance in
      let clamped = if F.lt F.two low then F.two else low in F.sub F.one (F.div clamped F.two)

  -- The loop of `CosineSimilarity`: the dot product and the two squares, added up from the left.
  unfoldable pub similarity_loop : W → W → W → Vec → Vec → W × W × W
  similarity_loop dot norm_a norm_b (x ∷ a) (y ∷ b) =
      similarity_loop (F.add dot (F.mul x y)) (F.add norm_a (F.mul x x)) (F.add norm_b (F.mul y y))
        a b
  similarity_loop dot norm_a norm_b _ _ = (dot, norm_a, norm_b)

  unfoldable pub cosine_similarity : Vec → Vec → W
  cosine_similarity a b =
      let (dot, norm_a, norm_b) = similarity_loop F.zero F.zero F.zero a b in
      if not (length a == length b) || length a == 0
      then F.zero
      else if F.same norm_a F.zero || F.same norm_b F.zero
      then F.zero
      else F.div dot (F.root norm_a norm_b)

  unfoldable pub cosine : Vec → Vec → W
  cosine a b = F.sub F.one (cosine_similarity a b)

  unfoldable pub euclidean_loop : W → Vec → Vec → W
  euclidean_loop sum (x ∷ a) (y ∷ b) =
      euclidean_loop (F.add sum (F.mul (F.sub x y) (F.sub x y))) a b
  euclidean_loop sum _ _ = sum

  unfoldable pub euclidean : Vec → Vec → W
  euclidean a b = if length a == length b then euclidean_loop F.zero a b else F.max

  unfoldable pub dot_loop : W → Vec → Vec → W
  dot_loop sum (x ∷ a) (y ∷ b) = dot_loop (F.add sum (F.mul x y)) a b
  dot_loop sum _ _ = sum

  unfoldable pub dot_product : Vec → Vec → W
  dot_product a b = if length a == length b then F.neg (dot_loop F.zero a b) else F.max

  unfoldable pub norm_loop : W → Vec → W
  norm_loop norm [] = norm
  norm_loop norm (x ∷ v) = norm_loop (F.add norm (F.mul x x)) v

  -- The vector that `Normalize` leaves in place and returns, and that `NormalizeCopy` returns.
  unfoldable pub normalize : Vec → Vec
  normalize v =
      let norm = norm_loop F.zero v in
      if F.same norm F.zero then v else map (λ x. F.div x (F.root_of norm)) v
