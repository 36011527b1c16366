-- ===== src/Loop/Names.antt =====
-- The name that `EventLoop::addTask` of include/async/loop.h gives a task.
use asyncxx.Base.{ℕ, zero, suc, ◌+◌, ◌/◌, ◌%◌, List, [], ◌∷◌, ltb, if◌then◌else◌}
use asyncxx.Task.{Name}

-- `std::to_string`, the digits of a number in front of a text. Fuel above the number is enough.
unfoldable pub digits_onto : ℕ → ℕ → List ℕ → List ℕ
digits_onto zero n out = out
digits_onto (suc fuel) n out =
    let more = digits_onto fuel (n / 10) ((b'0' + n % 10) ∷ out) in
    if ltb n 10 then (b'0' + n) ∷ out else more

unfoldable pub task_name : Name → ℕ → Name
unfolding digits_onto
task_name [] id = b'T' ∷ b'a' ∷ b's' ∷ b'k' ∷ b'-' ∷ digits_onto (suc id) id []
task_name (c ∷ cs) id = c ∷ cs
