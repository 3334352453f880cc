-- ===== src/Vector/Float.antt =====
-- What the code does with a `float32`: an abstract type with the operations that vector uses.
use levelgraph.Prelude.{◌≡◌, ◌⊎◌, Bool, true, false}

-- `lt` is `<`, `same` is `==`. `root a b` is `float32(math.Sqrt(float64(a)*float64(b)))`, and
-- `root_of a` is `float32(math.Sqrt(float64(a)))`.
pub record Float (W : Type 0) : Type 0 where
  pub zero : W
  pub one : W
  pub two : W
  pub max : W
  pub lt : W → W → Bool
  pub same : W → W → Bool
  pub add : W → W → W
  pub sub : W → W → W
  pub mul : W → W → W
  pub div : W → W → W
  pub neg : W → W
  pub root : W → W → W
  pub root_of : W → W

-- NaN is below nothing and above nothing: `IsNumber` says that a float is another one. Two floats
-- that a third, a number, does not lie between are not in order.
pub record IsOrdered {W : Type 0} (F : Float W) : Type 1 where
  pub IsNumber : W → Type 0
  pub asym : (a b : W) → F.lt a b ≡ true → F.lt b a ≡ false
  pub between : (a b c : W) → IsNumber c → F.lt a b ≡ true → (F.lt a c ≡ true) ⊎ (F.lt c b ≡ true)
