-- ===== src/Machine/Decode.antt =====
-- The instruction formats and opcode tables of code/machine/mipssim.h, and Instruction::Decode of
-- code/machine/mipssim.cc.
pub mod Fields
use my_nachos.Shared.{
  ℕ, ◌+◌, ◌*◌, ◌/◌, ◌%◌, ◌^◌, Bool, true, false, List, [], ◌∷◌, ◌++◌, ◌==◌, leb, if◌then◌else◌,
  replicate, get_or,
}

pub data Op : Type 0 where
  op_add op_addi op_addiu op_addu op_and op_andi op_beq op_bgez op_bgezal op_bgtz op_blez : Op
  op_bltz op_bltzal op_bne op_div op_divu op_j op_jal op_jalr op_jr op_lb op_lbu op_lh : Op
  op_lhu op_lui op_lw op_lwl op_lwr op_mfhi op_mflo op_mthi op_mtlo op_mult op_multu : Op
  op_nor op_or op_ori op_rfe op_sb op_sh op_sll op_sllv op_slt op_slti op_sltiu op_sltu : Op
  op_sra op_srav op_srl op_srlv op_sub op_subu op_sw op_swl op_swr op_xor op_xori : Op
  op_syscall op_unimp op_res special bcond : Op

pub data Format : Type 0 where
  ifmt jfmt rfmt : Format

pub record OpInfo : Type 0 where
  pub op_code : Op
  pub format : Format

abbrev i_type : Op → OpInfo
i_type op = record { op_code = op; format = ifmt }

abbrev j_type : Op → OpInfo
j_type op = record { op_code = op; format = jfmt }

-- Bits 31 to 26 of an instruction, in rows of eight.
abbrev pub op_table : List OpInfo
op_table =
    (record { op_code = special; format = rfmt }
      ∷ i_type bcond
      ∷ j_type op_j
      ∷ j_type op_jal
      ∷ i_type op_beq
      ∷ i_type op_bne
      ∷ i_type op_blez
      ∷ i_type op_bgtz
      ∷ [])
    ++ ((i_type op_addi
          ∷ i_type op_addiu
          ∷ i_type op_slti
          ∷ i_type op_sltiu
          ∷ i_type op_andi
          ∷ i_type op_ori
          ∷ i_type op_xori
          ∷ i_type op_lui
          ∷ [])
        ++ (replicate 4 (i_type op_unimp)
            ++ (replicate 12 (i_type op_res)
                ++ ((i_type op_lb
                      ∷ i_type op_lh
                      ∷ i_type op_lwl
                      ∷ i_type op_lw
                      ∷ i_type op_lbu
                      ∷ i_type op_lhu
                      ∷ i_type op_lwr
                      ∷ i_type op_res
                      ∷ [])
                    ++ ((i_type op_sb
                          ∷ i_type op_sh
                          ∷ i_type op_swl
                          ∷ i_type op_sw
                          ∷ i_type op_res
                          ∷ i_type op_res
                          ∷ i_type op_swr
                          ∷ i_type op_res
                          ∷ [])
                        ++ (replicate 4 (i_type op_unimp)
                            ++ (replicate 4 (i_type op_res)
                                ++ (replicate 4 (i_type op_unimp)
                                    ++ replicate 4 (i_type op_res)))))))))

-- The `funct` field of a SPECIAL instruction, in rows of eight.
abbrev pub special_table : List Op
special_table =
    (op_sll ∷ op_res ∷ op_srl ∷ op_sra ∷ op_sllv ∷ op_res ∷ op_srlv ∷ op_srav ∷ [])
    ++ ((op_jr ∷ op_jalr ∷ op_res ∷ op_res ∷ op_syscall ∷ op_unimp ∷ op_res ∷ op_res ∷ [])
        ++ ((op_mfhi ∷ op_mthi ∷ op_mflo ∷ op_mtlo ∷ op_res ∷ op_res ∷ op_res ∷ op_res ∷ [])
            ++ ((op_mult ∷ op_multu ∷ op_div ∷ op_divu ∷ op_res ∷ op_res ∷ op_res ∷ op_res ∷ [])
                ++ ((op_add ∷ op_addu ∷ op_sub ∷ op_subu ∷ op_and ∷ op_or ∷ op_xor ∷ op_nor ∷ [])
                    ++ ((op_res ∷ op_res ∷ op_slt ∷ op_sltu ∷ op_res ∷ op_res ∷ op_res ∷ op_res
                          ∷ [])
                        ++ replicate 16 op_res)))))

pub record Instruction : Type 0 where
  pub value : ℕ
  pub op_code : Op
  pub rs : ℕ
  pub rt : ℕ
  pub rd : ℕ
  pub extra : ℕ

-- `extra & 0x8000` sets the upper half to ones.
abbrev pub sign_extend_16 : ℕ → ℕ
sign_extend_16 x = if leb 0x8000 x then x + 0xffff_0000 else x

unfoldable pub extra_of : Format → ℕ → ℕ
extra_of ifmt value = sign_extend_16 (value % 2 ^ 16)
extra_of rfmt value = value / 2 ^ 6 % 2 ^ 5
extra_of jfmt value = value % 2 ^ 26

-- `value & 0x1f0000` chooses among the branches on a sign.
unfoldable pub branch_op : ℕ → Op
branch_op value =
    let i = value / 2 ^ 16 % 2 ^ 5 * 2 ^ 16 in
    if i == 0
    then op_bltz
    else if i == 0x1_0000
    then op_bgez
    else if i == 0x10_0000
    then op_bltzal
    else if i == 0x11_0000
    then op_bgezal
    else op_unimp

unfoldable pub op_of : Op → ℕ → Op
op_of special value = get_or special_table (value % 2 ^ 6) op_res
op_of bcond value = branch_op value
op_of op value = op

unfoldable pub decode : ℕ → Instruction
unfolding extra_of op_of branch_op
decode value =
    let info = get_or op_table (value / 2 ^ 26 % 2 ^ 6) (i_type op_res) in
    record {
      value = value;
      op_code = op_of info.op_code value;
      rs = value / 2 ^ 21 % 2 ^ 5;
      rt = value / 2 ^ 16 % 2 ^ 5;
      rd = value / 2 ^ 11 % 2 ^ 5;
      extra = extra_of info.format value;
    }
