-- ===== src/Http/Limits.antt =====
-- Which sizes of a body core/middleware/request_limits.py takes.
use news_board.Prelude.{
  String, true, false, some, ◌≡◌, inl, inr, ◌⊎◌, arith, eq_iff, str_eq, Bool-cases,
}
use news_board.Prelude.Int.{ℤ, pos, leb_ℤ}
use news_board.Http.{Request, Edge}
use news_board.Http.Middleware.{is_too_large, max_body_for, max_body_in}

-- `n` bytes are more than the route of the request takes
pub data IsOver (edge : Edge) (req : Request) (n : ℤ) : Type 0 where
  upload :
      edge.upper req.method ≡ "POST"
      → req.path ≡ "/"
      → leb_ℤ n (pos 52428800) ≡ false
      → IsOver edge req n
  elsewhere :
      ((edge.upper req.method ≡ "POST") → (req.path ≡ "/") → ⊥)
      → leb_ℤ n (pos 2097152) ≡ false
      → IsOver edge req n

pub IsOver-is_too_large :
    (edge : Edge) (req : Request) (header : String) (n : ℤ)
    → req.content_length ≡ some header
    → edge.int_of header ≡ some n
    → IsOver edge req n
    → is_too_large edge req ≡ true
unfolding is_too_large max_body_for max_body_in
IsOver-is_too_large edge req header n sent read (upload post root more) =
    ground (arith, eq_iff (edge.upper req.method) "POST", eq_iff req.path "/")
IsOver-is_too_large edge req header n sent read (elsewhere other more) =
    elim (Bool-cases (str_eq (edge.upper req.method) "POST")) [
      | inr method ↦ ground arith
      | inl method ↦ elim (Bool-cases (str_eq req.path "/")) [
        | inr path ↦ ground arith
        | inl path ↦ absurd (
            other ((eq_iff (edge.upper req.method) "POST").0 method) ((eq_iff req.path "/").0 path))
      ]
    ]

-- `n` bytes are as many as the route of the request takes
pub data IsWithin (edge : Edge) (req : Request) (n : ℤ) : Type 0 where
  upload_within :
      edge.upper req.method ≡ "POST"
      → req.path ≡ "/"
      → leb_ℤ n (pos 52428800) ≡ true
      → IsWithin edge req n
  elsewhere_within :
      (edge.upper req.method ≡ "POST" → req.path ≡ "/" → ⊥)
      → leb_ℤ n (pos 2097152) ≡ true
      → IsWithin edge req n

pub IsWithin-is_too_large :
    (edge : Edge) (req : Request) (header : String) (n : ℤ)
    → req.content_length ≡ some header
    → edge.int_of header ≡ some n
    → IsWithin edge req n
    → is_too_large edge req ≡ false
unfolding is_too_large max_body_for max_body_in
IsWithin-is_too_large edge req header n sent read (upload_within post root more) =
    ground (arith, eq_iff (edge.upper req.method) "POST", eq_iff req.path "/")
IsWithin-is_too_large edge req header n sent read (elsewhere_within other more) =
    elim (Bool-cases (str_eq (edge.upper req.method) "POST")) [
      | inr method ↦ ground arith
      | inl method ↦ elim (Bool-cases (str_eq req.path "/")) [
        | inr path ↦ ground arith
        | inl path ↦ absurd (
            other ((eq_iff (edge.upper req.method) "POST").0 method) ((eq_iff req.path "/").0 path))
      ]
    ]

-- a size is over the limit or within it
pub size-cases : (edge : Edge) (req : Request) (n : ℤ) → IsOver edge req n ⊎ IsWithin edge req n
size-cases edge req n =
    let post = eq_iff (edge.upper req.method) "POST" in
    let root = eq_iff req.path "/" in
    let small = λ (other : edge.upper req.method ≡ "POST" → req.path ≡ "/" → ⊥).
      let r : IsOver edge req n ⊎ IsWithin edge req n = elim (Bool-cases (leb_ℤ n (pos 2097152))) [
        | inl less ↦ inr (elsewhere_within other less)
        | inr more ↦ inl (elsewhere other more)
      ] in
      r in
    elim (Bool-cases (str_eq (edge.upper req.method) "POST")) [
      | inr method ↦ small (λ p r. cc (post.1 p, method))
      | inl method ↦ elim (Bool-cases (str_eq req.path "/")) [
        | inr path ↦ small (λ p r. cc (root.1 r, path))
        | inl path ↦ elim (Bool-cases (leb_ℤ n (pos 52428800))) [
          | inl less ↦ inr (upload_within (post.0 method) (root.0 path) less)
          | inr more ↦ inl (upload (post.0 method) (root.0 path) more)
        ]
      ]
    ]
