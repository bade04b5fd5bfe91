-- ===== src/Morse/Letters.antt =====
-- The tree of Morse codes of user_tasks/morse.c, each node behind its two.
use esp32_template.Base.{none, some, [], ◌∷◌}
use esp32_template.Morse.{MorseType, MorseNode, null, node}

abbrev pub morse_sleep_command : MorseNode
morse_sleep_command = node (some (b'!' ∷ [])) MorseType.morse_command_sleep null null

abbrev pub bl_enable_command : MorseNode
bl_enable_command =
    node (some (b'!' ∷ [])) MorseType.morse_command_enable_bl morse_sleep_command null

abbrev pub bl_disable_command : MorseNode
bl_disable_command = node (some (b'!' ∷ [])) MorseType.morse_command_disable_bl null null

abbrev pub d5_digit : MorseNode
d5_digit = node (some (b'5' ∷ [])) MorseType.morse_letter bl_enable_command bl_disable_command

abbrev pub d4_digit : MorseNode
d4_digit = node (some (b'4' ∷ [])) MorseType.morse_letter null null

abbrev pub h_letter : MorseNode
h_letter = node (some (b'H' ∷ [])) MorseType.morse_letter d5_digit d4_digit

abbrev pub d3_digit : MorseNode
d3_digit = node (some (b'3' ∷ [])) MorseType.morse_letter null null

abbrev pub v_letter : MorseNode
v_letter = node (some (b'V' ∷ [])) MorseType.morse_letter null d3_digit

abbrev pub s_letter : MorseNode
s_letter = node (some (b'S' ∷ [])) MorseType.morse_letter h_letter v_letter

abbrev pub f_letter : MorseNode
f_letter = node (some (b'F' ∷ [])) MorseType.morse_letter null null

abbrev pub question_sign : MorseNode
question_sign = node (some (b'?' ∷ [])) MorseType.morse_letter null null

abbrev pub underscore_sign : MorseNode
underscore_sign = node (some (b'_' ∷ [])) MorseType.morse_letter null null

abbrev pub detta_letter : MorseNode
detta_letter = node (some (b'D' ∷ b't' ∷ [])) MorseType.morse_letter question_sign underscore_sign

abbrev pub d2_digit : MorseNode
d2_digit = node (some (b'2' ∷ [])) MorseType.morse_letter null null

abbrev pub utta_letter : MorseNode
utta_letter = node (some (b'U' ∷ b't' ∷ [])) MorseType.morse_letter detta_letter d2_digit

abbrev pub u_letter : MorseNode
u_letter = node (some (b'U' ∷ [])) MorseType.morse_letter f_letter utta_letter

abbrev pub i_letter : MorseNode
i_letter = node (some (b'I' ∷ [])) MorseType.morse_letter s_letter u_letter

abbrev pub quotes_signs : MorseNode
quotes_signs = node (some (39 ∷ 39 ∷ [])) MorseType.morse_letter null null

abbrev pub etta_letter : MorseNode
etta_letter = node (some (b'E' ∷ [])) MorseType.morse_letter quotes_signs null

abbrev pub l_letter : MorseNode
l_letter = node (some (b'L' ∷ [])) MorseType.morse_letter null etta_letter

abbrev pub dot_sign : MorseNode
dot_sign = node (some (b'.' ∷ [])) MorseType.morse_letter null null

abbrev pub plus_sign : MorseNode
plus_sign = node (some (b'+' ∷ [])) MorseType.morse_letter null dot_sign

abbrev pub atte_letter : MorseNode
atte_letter = node (some (b'A' ∷ b't' ∷ [])) MorseType.morse_letter plus_sign null

abbrev pub r_letter : MorseNode
r_letter = node (some (b'R' ∷ [])) MorseType.morse_letter l_letter atte_letter

abbrev pub dog_sign : MorseNode
dog_sign = node (some (b'@' ∷ [])) MorseType.morse_letter null null

abbrev pub amba_letter : MorseNode
amba_letter = node (some (b'A' ∷ b'b' ∷ [])) MorseType.morse_letter dog_sign null

abbrev pub p_letter : MorseNode
p_letter = node (some (b'P' ∷ [])) MorseType.morse_letter null amba_letter

abbrev pub jetta_letter : MorseNode
jetta_letter = node (some (b'J' ∷ b't' ∷ [])) MorseType.morse_letter null null

abbrev pub quote_sign : MorseNode
quote_sign = node (some (39 ∷ [])) MorseType.morse_letter null null

abbrev pub d1_digit : MorseNode
d1_digit = node (some (b'1' ∷ [])) MorseType.morse_letter quote_sign null

abbrev pub j_letter : MorseNode
j_letter = node (some (b'J' ∷ [])) MorseType.morse_letter jetta_letter d1_digit

abbrev pub w_letter : MorseNode
w_letter = node (some (b'W' ∷ [])) MorseType.morse_letter p_letter j_letter

abbrev pub a_letter : MorseNode
a_letter = node (some (b'A' ∷ [])) MorseType.morse_letter r_letter w_letter

abbrev pub e_letter : MorseNode
e_letter = node (some (b'E' ∷ [])) MorseType.morse_letter i_letter a_letter

abbrev pub minus_sign : MorseNode
minus_sign = node (some (b'-' ∷ [])) MorseType.morse_letter null null

abbrev pub d6_digit : MorseNode
d6_digit = node (some (b'6' ∷ [])) MorseType.morse_letter null minus_sign

abbrev pub equal_sign : MorseNode
equal_sign = node (some (b'=' ∷ [])) MorseType.morse_letter null null

abbrev pub b_letter : MorseNode
b_letter = node (some (b'B' ∷ [])) MorseType.morse_letter d6_digit equal_sign

abbrev pub slash_sign : MorseNode
slash_sign = node (some (b'/' ∷ [])) MorseType.morse_letter null null

abbrev pub space_sign : MorseNode
space_sign = node (some (b' ' ∷ [])) MorseType.morse_letter null null

abbrev pub x_letter : MorseNode
x_letter = node (some (b'X' ∷ [])) MorseType.morse_letter slash_sign space_sign

abbrev pub d_letter : MorseNode
d_letter = node (some (b'D' ∷ [])) MorseType.morse_letter b_letter x_letter

abbrev pub semicolon : MorseNode
semicolon = node (some (b';' ∷ [])) MorseType.morse_letter null null

abbrev pub exclamation : MorseNode
exclamation = node (some (b'!' ∷ [])) MorseType.morse_letter null null

abbrev pub new_line : MorseNode
new_line = node (some (10 ∷ [])) MorseType.morse_letter semicolon exclamation

abbrev pub c_letter : MorseNode
c_letter = node (some (b'C' ∷ [])) MorseType.morse_letter null new_line

abbrev pub close_bracket : MorseNode
close_bracket = node (some (b')' ∷ [])) MorseType.morse_letter null null

abbrev pub open_bracket : MorseNode
open_bracket = node (some (b'(' ∷ [])) MorseType.morse_letter null close_bracket

abbrev pub y_letter : MorseNode
y_letter = node (some (b'Y' ∷ [])) MorseType.morse_letter open_bracket null

abbrev pub k_letter : MorseNode
k_letter = node (some (b'K' ∷ [])) MorseType.morse_letter c_letter y_letter

abbrev pub n_letter : MorseNode
n_letter = node (some (b'N' ∷ [])) MorseType.morse_letter d_letter k_letter

abbrev pub d7_digit : MorseNode
d7_digit = node (some (b'7' ∷ [])) MorseType.morse_letter null null

abbrev pub comma : MorseNode
comma = node (some (b',' ∷ [])) MorseType.morse_letter null null

abbrev pub zetta_letter : MorseNode
zetta_letter = node (some (b'Z' ∷ b't' ∷ [])) MorseType.morse_letter null comma

abbrev pub z_letter : MorseNode
z_letter = node (some (b'Z' ∷ [])) MorseType.morse_letter d7_digit zetta_letter

abbrev pub q_letter : MorseNode
q_letter = node (some (b'Q' ∷ [])) MorseType.morse_letter null null

abbrev pub g_letter : MorseNode
g_letter = node (some (b'G' ∷ [])) MorseType.morse_letter z_letter q_letter

abbrev pub colon : MorseNode
colon = node (some (b':' ∷ [])) MorseType.morse_letter null null

abbrev pub d8_digit : MorseNode
d8_digit = node (some (b'8' ∷ [])) MorseType.morse_letter colon null

abbrev pub remove_last_command : MorseNode
remove_last_command = node (some (b'!' ∷ [])) MorseType.morse_command_remove_last null null

abbrev pub otto_letter : MorseNode
otto_letter = node (some (b'O' ∷ b't' ∷ [])) MorseType.morse_letter d8_digit remove_last_command

abbrev pub d9_digit : MorseNode
d9_digit = node (some (b'9' ∷ [])) MorseType.morse_letter null null

abbrev pub broadcast_the_message_command : MorseNode
broadcast_the_message_command = node (some (b'!' ∷ [])) MorseType.morse_command_broadcast null null

abbrev pub d0_digit : MorseNode
d0_digit = node (some (b'0' ∷ [])) MorseType.morse_letter null broadcast_the_message_command

abbrev pub chapter : MorseNode
chapter = node (some (b' ' ∷ b' ' ∷ b' ' ∷ [])) MorseType.morse_letter d9_digit d0_digit

abbrev pub o_letter : MorseNode
o_letter = node (some (b'O' ∷ [])) MorseType.morse_letter otto_letter chapter

abbrev pub m_letter : MorseNode
m_letter = node (some (b'M' ∷ [])) MorseType.morse_letter g_letter o_letter

abbrev pub t_letter : MorseNode
t_letter = node (some (b'T' ∷ [])) MorseType.morse_letter n_letter m_letter

abbrev pub root_letter : MorseNode
root_letter = node none MorseType.morse_letter e_letter t_letter
