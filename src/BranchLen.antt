-- ===== src/BranchLen.antt =====
-- branch_map_len of src/trace_debugger.c: the width of the branch map field of a packet.
use trdb.Base.{ℕ, ◌≤◌, ◌≡◌, if◌then◌else◌, leb, ◌==◌, Outcome, done, assert, ◌>>◌, arith}

-- The widths, past the assertion.
unfoldable pub map_width : ℕ → ℕ
map_width branches =
    if branches == 0
    then 31
    else if leb branches 1
    then 1
    else if leb branches 9
    then 9
    else if leb branches 17
    then 17
    else if leb branches 25
    then 25
    else if leb branches 31
    then 31
    else 0

unfoldable pub branch_map_len : ℕ → Outcome ℕ
unfolding map_width
branch_map_len branches = do assert (leb branches 31); done (map_width branches)

-- For up to 31 branches, the assertion of branch_map_len passes, and the width it returns has a
-- bit for each branch, at least 1 bit and at most 31.
pub branch_map_len_fits :
    (branches : ℕ)
    → branches ≤ 31
    → (branch_map_len branches ≡ done (map_width branches))
      × (branches ≤ map_width branches)
      × (map_width branches ≤ 31)
      × (1 ≤ map_width branches)
unfolding branch_map_len
branch_map_len_fits branches h = ground arith
