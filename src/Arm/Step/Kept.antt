-- ===== src/Arm/Step/Kept.antt =====
-- Sources/Architecture/ARM/ThumbBranchInfo.cpp: the decoders that run behind an IT instruction.
use ds.Base.{ℕ, ◌≡◌, Option, none, some, arith}
use ds.Arm.{BranchInfo}
use ds.Arm.Thumb.{
  get_b_n, get_bcc_n, get_bx, get_blx_r, get_mov_pc, get_pop_pc, get_b_w, get_bcc_w, get_bl,
  get_blx_i, get_cbz, get_ldr_pc, get_ldm_pc, get_subs_pc_lr, get_tbb, get_tbh, ◌orelse◌, decoders,
}

-- The decoders leave what the IT instruction set.
abbrev pub Keeps : BranchInfo → Option BranchInfo → Type 0
Keeps info none = Unit {0}
Keeps info (some found) = (found.it ≡ info.it) × (found.it_count ≡ info.it_count)

orelse-Keeps :
    (info : BranchInfo) (a b : Option BranchInfo)
    → Keeps info a
    → Keeps info b
    → Keeps info (a orelse b)
orelse-Keeps info none b h k = k
orelse-Keeps info (some a) b h k = h

narrow-Keeps :
    (h0 : ℕ) (info : BranchInfo) (rest : Option BranchInfo)
    → Keeps info rest
    → Keeps info (
        get_blx_r h0 info
        orelse get_bx h0 info
        orelse get_mov_pc h0 info
        orelse get_pop_pc h0 info
        orelse rest)
unfolding get_blx_r get_bx get_mov_pc get_pop_pc
narrow-Keeps h0 info rest k = orelse-Keeps info (get_blx_r h0 info) _ (ground arith) (
    orelse-Keeps info (get_bx h0 info) _ (ground arith) (
      orelse-Keeps info (get_mov_pc h0 info) _ (ground arith)
        (orelse-Keeps info (get_pop_pc h0 info) _ (ground arith) k)))

wide-Keeps :
    (h0 h1 : ℕ) (info : BranchInfo)
    → Keeps info (
        get_b_w h0 h1 info
        orelse get_bcc_w h0 h1 info
        orelse get_blx_i h0 h1 info
        orelse get_cbz h0 info
        orelse get_ldr_pc h0 h1 info
        orelse get_ldm_pc h0 h1 info
        orelse get_subs_pc_lr h0 h1 info
        orelse get_tbb h0 h1 info
        orelse get_tbh h0 h1 info)
unfolding get_b_w get_bcc_w get_blx_i get_cbz get_ldr_pc get_ldm_pc get_subs_pc_lr get_tbb get_tbh
wide-Keeps h0 h1 info = orelse-Keeps info (get_b_w h0 h1 info) _ (ground arith) (
    orelse-Keeps info (get_bcc_w h0 h1 info) _ (ground arith) (
      orelse-Keeps info (get_blx_i h0 h1 info) _ (ground arith) (
        orelse-Keeps info (get_cbz h0 info) _ (ground arith) (
          orelse-Keeps info (get_ldr_pc h0 h1 info) _ (ground arith) (
            orelse-Keeps info (get_ldm_pc h0 h1 info) _ (ground arith) (
              orelse-Keeps info (get_subs_pc_lr h0 h1 info) _ (ground arith)
                (orelse-Keeps info (get_tbb h0 h1 info) _ (ground arith) (ground arith))))))))

pub decoders-Keeps : (h0 h1 : ℕ) (info : BranchInfo) → Keeps info (decoders h0 h1 info)
unfolding decoders get_b_n get_bcc_n get_bl
decoders-Keeps h0 h1 info = orelse-Keeps info (get_b_n h0 info) _ (ground arith) (
    orelse-Keeps info (get_bcc_n h0 info) _ (ground arith) (
      orelse-Keeps info (get_bl h0 h1 info) _ (ground arith)
        (narrow-Keeps h0 info _ (wide-Keeps h0 h1 info))))
