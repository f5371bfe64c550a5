-- ===== src/Machine/Decode/Fields.antt =====
-- Instruction::Decode (code/machine/mipssim.cc) on a word that was put together from its fields.
use my_nachos.Shared.{ℕ, ◌+◌, ◌*◌, ◌/◌, ◌%◌, ◌^◌, ◌<◌, ◌≡◌, arith, get_or}
use my_nachos.Machine.Decode.{op_res, special_table, decode}

-- The register format of the MIPS architecture.
abbrev pub encode_r : ℕ → ℕ → ℕ → ℕ → ℕ → ℕ
encode_r rs rt rd shamt funct = rs * 2 ^ 21 + rt * 2 ^ 16 + rd * 2 ^ 11 + shamt * 2 ^ 6 + funct

-- Decoding a SPECIAL instruction word that was put together from fields of their widths gives back
-- the registers and the shift amount, and the opcode that specialTable has for the function.
pub decode-encode_r :
    (rs rt rd shamt funct : ℕ)
    → rs < 2 ^ 5
    → rt < 2 ^ 5
    → rd < 2 ^ 5
    → shamt < 2 ^ 5
    → funct < 2 ^ 6
    → decode (encode_r rs rt rd shamt funct) ≡ record {
      value = encode_r rs rt rd shamt funct;
      op_code = get_or special_table funct op_res;
      rs = rs;
      rt = rt;
      rd = rd;
      extra = shamt;
    }
unfolding decode
decode-encode_r rs rt rd shamt funct h1 h2 h3 h4 h5 =
    let w = encode_r rs rt rd shamt funct in
    let top : w / 2 ^ 26 % 2 ^ 6 ≡ 0 = omega arith in
    let e1 : w / 2 ^ 21 % 2 ^ 5 ≡ rs = omega arith in
    let e2 : w / 2 ^ 16 % 2 ^ 5 ≡ rt = omega arith in
    let e3 : w / 2 ^ 11 % 2 ^ 5 ≡ rd = omega arith in
    let e4 : w / 2 ^ 6 % 2 ^ 5 ≡ shamt = omega arith in
    let e5 : w % 2 ^ 6 ≡ funct = omega arith in rw (top, e1, e2, e3, e4, e5)
