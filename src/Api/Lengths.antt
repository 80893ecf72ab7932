-- ===== src/Api/Lengths.antt =====
-- What tmpi_intra_init_sh makes of a message whose length does not fit an int.
use tmpi.Base.{ℕ, ◌+◌, ◌-◌, ◌*◌, ◌^◌, ◌≤◌, ◌<◌, ◌≡◌, sym, ap, ◌∙◌, subst, some, List, arith, pos}
use tmpi.Util.{usize}
use tmpi.Intra.Types.{Mode, SHandle, Node, Env, Supply, update_self, success}
use tmpi.Intra.Create.{int_product, Args, Life, new_sh, made, init_sh}
use tmpi.Intra.Lengths.{int_product_lem}
use tmpi.Api.Meets.{CanSend, made_state, init_sh_lem}

-- Where all else is in place for the handle `p` of length `len`, and the bytes of the message are
-- 4 GB to 6 GB, tmpi_intra_init_sh reports success, and makes a handle for the caller's buffer whose
-- length falls short of the message by 4 GB.
pub init_sh-wraps :
    (env : Env) (s : Supply) (w : Node) (a : Args) (mode : Mode) (life : Life)
    (own ch context len p c : ℕ) (cache : List ℕ)
    → CanSend env s w a mode own ch context len p cache
    → a.count ≡ pos c
    → 2 ^ 32 ≤ usize env.ctypes a.datatype * c
    → usize env.ctypes a.datatype * c < 2 ^ 32 + 2 ^ 31
    → (w' : Node) × (init_sh env s w a mode life ≡ made w' success p)
      × ((w'.shs p).curdata ≡ a.buf)
      × ((w'.shs p).buflen + 2 ^ 32 ≡ usize env.ctypes a.datatype * c)
unfolding new_sh
init_sh-wraps env s w a mode life own ch context len p c cache v count low high =
    let h = new_sh env (w.shs p) a context len s.mb mode life in
    let n = usize env.ctypes a.datatype in
    let size : int_product n (pos c) ≡ some len =
      subst (λ z. int_product n z ≡ some len) count v.size in
    let wrapped = (int_product_lem n c).2 low high in
    let same : some len ≡ some (n * c - 2 ^ 32) = sym size ∙ wrapped in
    let len_is : len ≡ n * c - 2 ^ 32 = cc in
    let kept = update_self w.shs p h in
    (
      made_state env s w a mode life own context len p cache,
      init_sh_lem env s w a mode life own ch context len p cache v,
      ap SHandle.curdata kept,
      ap (λ (x : SHandle). x.buflen + 2 ^ 32) kept ∙ omega (arith, len_is),
    )
