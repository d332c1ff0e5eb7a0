-- ===== src/Pool/Tests.antt =====
-- A slice of 1000 bytes is taken, put back, and taken again for 600.
use proxy_speedtest.Prelude.{ℕ, ◌*◌, ◌^◌, ◌≤◌, arith, ◌<◌, ◌≡◌, refl, [], ◌∷◌, some}
use proxy_speedtest.Pool.{
  Allocator, new_allocator, set_pool, made, reused, Get, get, Reached, new, after_get, after_put,
  get_class, put_class, msb, len_bits,
}
use proxy_speedtest.Pool.Alloc.{get-fits, get-returns}

class_1000 : get_class 1000 ≡ some 10
unfolding get_class msb len_bits
class_1000 = refl

class_600 : get_class 600 ≡ some 10
unfolding get_class msb len_bits
class_600 = refl

put_1024 : put_class 1024 ≡ some 10
unfolding put_class msb len_bits
put_1024 = refl

abbrev taken : Allocator
taken = set_pool 10 [] new_allocator

abbrev put_back : Allocator
put_back = set_pool 10 (1024 ∷ taken 10) taken

put_back-Reached : Reached put_back
put_back-Reached = after_put 1024 10 (after_get 1000 1024 new (get class_1000 made)) put_1024

again : Get put_back 600 1024 (set_pool 10 [] put_back)
unfolding set_pool
again = get class_600 (reused [] 1024 [])

get-fits_example :
    (600 ≤ 1024)
    × (1024 < 2 * 600)
    × ((k : ℕ) × (k < 17) × (put_class 1024 ≡ some k) × (1024 ≡ 2 ^ k))
get-fits_example = get-fits put_back (set_pool 10 [] put_back) 600 1024 put_back-Reached again

get-returns_example :
    (capacity : ℕ) × (b : Allocator) × Get put_back 70 capacity b × Reached b × (70 ≤ capacity)
get-returns_example = get-returns put_back 70 put_back-Reached (omega arith) (omega arith)
