-- ===== src/Shell/Pictures.antt =====
-- The pictures that `handleCMD` of queen/main.c prints.
use Prim.Native.Char.{code}
use Prim.Native.String.{String}
use hive_rk.Prelude.{ℕ, List, [], ◌∷◌, ◌++◌}

-- The bytes of a string literal.
abbrev pub codes : String → List ℕ
codes String.[] = []
codes (String.◌∷◌ c s) = code c ∷ codes s

abbrev pub tea : List ℕ
tea =
    codes "  {LBEk@u0%M@y*R*                \"*4@\"4@@@&,FB4[@B\n"
    ++ codes "e#BB[&B+5w$1R'                       *4%%R, 4B4LB4\n"
    ++ codes "&B4BnEw2P&M            ,,.              *4B&w7QJ4U\n"
    ++ codes "4B44rTS4F         ,x444RMR444Ew,         `44$ZA[44\n"
    ++ codes "4@4B4L,`       ,r44FDe&HuuuD@mDA4Lu        RE\"F1#4\n"
    ++ codes "4E4@4R\"      e4&*]J#@BBB4@B4@BBwUuR4W       *N4$$B\n"
    ++ codes "*RB4BF     44A,@A,4B444RB@@B@REBLTYW*4W      44444\n"
    ++ codes "@BBBB    ,4R)K4MA***\"%@%|%%@@A'\"`>t\"E%\"4,    'jM&M\n"
    ++ codes "4REU    ,4FnIw/4K4LE T%%4N%%N@J|44k rm$\u{4}u    4BRB\n"
    ++ codes "BM4P    4F44m4 444Q. w\\`|N%%R*IJ444kRY @T4    `M**\n"
    ++ codes "44R    4Pe4BP\"      \"44w,244R,,     *[& w4&       \n"
    ++ codes "M@`   JRjJB@ [B*    4444444444\"'   E jBB  4L      \n"
    ++ codes "%F   ,4)jBBBLW4u*vm 4444444444L\"wK,44 BBL `4,     \n"
    ++ codes "*    4`HjB4BL444&wr44444B%444444w4444hBBB %'B     \n"
    ++ codes "    4E|  BB4L444444444444%44444444444\"B44  %T&    \n"
    ++ codes "    4 [ UBBB|44444444444444444444444MuBB4   ufE   \n"
    ++ codes " zf4F ] UB&BL,44444444&RRRMR4444444R HBRB  4L BL. \n"
    ++ codes "44JR  j H4Tk[ h*44&\",e4444444KEZR4M/  @k4J4@@ `4L&\n"
    ++ codes "4EBL  `  [ [@)'| 5.4&4444444444TL~N@\"J@L[,e@&  j4L\n"
    ++ codes "`N*Nw  `1  J% u~,r4#[K4444444;4z*RBw1[@hT4@&' ,@M,\n"
    ++ codes "4``w*4k,  1\"0L444Er@wf&M*M\"* IE04$,4MBM  &F ,AOe&H\n"
    ++ codes "  \"*4RkZ*4 U\"%444444R,'Jr4whw4E84E84uM` ' 4U@@%M\" \n"
    ++ codes "      +4RMM\"K0R4444A4R4`   `` `4M4444%M*K4RRP     "

abbrev pub gun : List ℕ
gun =
    codes "4444444444444444444444444444R*\"*444444444444444444\n"
    ++ codes "4444444444444444444444444R\",rB4B f444444444444444R\n"
    ++ codes "44444444444444444444444* zB44444L 444444444444A' -\n"
    ++ codes "444444444444444444444\" rB44444444 f44444444F` wB44\n"
    ++ codes "444444444444444444`  r44444444RA* ,,,,. `` ,44444'\n"
    ++ codes "44444444444444444FJkB44444444M   444R`  ,444444E,B\n"
    ++ codes "4444444444444444' r444444444F   444\"   rB444444LrH\n"
    ++ codes "444444444444P=T r44444BE4444&,rE44E   4444444444&*\n"
    ++ codes "44444A\"\"\"*BF,rw44444M   f4444444444B4444444444444B\n"
    ++ codes "44M\"\" @ h   '4B444B'    J44444B44444444R\"  `*44444\n"
    ++ codes "M z@     Nu    '*4BL   ,4&4444444BM@44R      `4444\n"
    ++ codes " 8  '  \"@  H%u    `*44444k444M4444R4%4E      ,4444\n"
    ++ codes " 8 |    [  H   `      \"f444444k22r44B44Bkw,w444444\n"
    ++ codes " 8  W,,eu  H             `*444444444%4444444444444\n"
    ++ codes " \"`` \"\" H`                   \"` `\"*@44444444444444\n"
    ++ codes " 8N *%m\".1NH                        44444444444444\n"
    ++ codes "  `UNNKNM`                      `% ,'4444444444444\n"
    ++ codes "w,                                   !444444444444\n"
    ++ codes "444Ew,                                4E4440*44B  \n"
    ++ codes "44444444rw,                           j `**  %u~@ \n"
    ++ codes "4444444444` B@@BBL ,4BBLBK@4Wy       ,K           \n"
    ++ codes "444444444E 4BBEEEE BEBKK44444444w   |             \n"
    ++ codes "444444444  B444444.\\BB4444444444B4L.`%%%%%%%%%%%%%"

abbrev pub fox : List ℕ
fox =
    codes "................................................................................\n"
    ++ codes "................     ......................................     ................\n"
    ++ codes "..............  .....     ............................     .....  ..............\n"
    ++ codes ".............   =====.     ..........................     .=====   .............\n"
    ++ codes ".............   @@@@@+====-   ....................   -====+@@@@@   .............\n"
    ++ codes ".............   @@@@@%%%%%#--   ...          ...   --#%%%%%@@@@@   .............\n"
    ++ codes ".............   @@@@@@@@@@%==...  ............  ...==%@@@@@@@@@@   .............\n"
    ++ codes ".............   @@@@@@@@@@%++===  .++++++++++.  ===++%@@@@@@@@@@   .............\n"
    ++ codes "................  :@@@@@@@%++++++++++++++++++++++++++%@@@@@@@:  ................\n"
    ++ codes "................  :@@@@@***++++++++++++++++++++++++++***@@@@@:  ................\n"
    ++ codes "................  :##%%%+++**=----=++++++++++=----=**+++%%%##:  ................\n"
    ++ codes "..................   -++++*@@:    .++++++++++.    :@@*++++-   ..................\n"
    ++ codes "..................   -++++*@@:    .++++++++++.    :@@*++++-   ..................\n"
    ++ codes "................  :##++++++**=----=++++++++++=----=**++++++##:  ................\n"
    ++ codes "................  :##***++++++++++++++++++++++++++++++++***##:  ................\n"
    ++ codes "..................   #@@+++++++++++==========+++++++++++@@#   ..................\n"
    ++ codes "................  :@@@@@@@%+++++++*@@:    :@@*+++++++%@@@@@@@:  ................\n"
    ++ codes "................  .::#@@@@@%%%%%%%%@@######@@%%%%%%%%@@@@@#::.  ................\n"
    ++ codes "...................  +##@@@@@@@@###@@@@@@@@@@###@@@@@@@@##+  ...................\n"
    ++ codes ".....................   @@@@@@@@  :@@@@@@@@@@:  @@@@@@@@   .....................\n"
    ++ codes "........................  :@@@@@@@#          #@@@@@@@:  ........................\n"
    ++ codes "........................  .:::::@@@##########@@@:::::.  ........................\n"
    ++ codes "...........................     ################     ...........................\n"
    ++ codes "................................                ................................\n"
    ++ codes "................................................................................"
