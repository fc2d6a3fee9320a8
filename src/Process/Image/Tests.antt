-- ===== src/Process/Image/Tests.antt =====
-- A program with one segment.
use funny_os.Common.{◌≡◌, refl, List, arith, All, align_down, align_up}
use funny_os.Process.Image.{
  Elf64ProgramHeader, ElfFile, ImageLayout, passed, elf_magic, scan_segments,
  configure_image_layout, Write, copy_image_segments,
}
use funny_os.Process.Image.Segments.{AreWords}
use funny_os.Process.Image.Layout.{LaidOut, configure_image_layout-LaidOut}
use funny_os.Process.Image.Copy.{Stays, copy_image_segments-Stays}

abbrev text_segment : Elf64ProgramHeader
text_segment = record {
  kind = 1;
  offset = 0x100;
  vaddr = 0x80_0000_0100;
  filesz = 0x200;
  memsz = 0x1800;
}

abbrev hello : ElfFile
hello = record {
  header = record {
    magic = elf_magic;
    ident_class = 2;
    machine = 62;
    entry = 0x80_0000_0110;
    phoff = 64;
    phentsize = 56;
    phnum = 1;
  };
  segment_at = λ at. text_segment;
}

abbrev hello_layout : ImageLayout
hello_layout = record {
  image_base = 0x80_0000_0000;
  image_capacity = 0x2000;
  image_page_count = 2;
  entry_point = 0x80_0000_0110;
  file_size = 0x300;
}

hello_accepted : configure_image_layout 0x20_0000 hello 0x300 ≡ passed hello_layout
unfolding configure_image_layout scan_segments align_down align_up
hello_accepted = refl

hello-AreWords : AreWords hello
hello-AreWords at = (omega arith, omega arith, omega arith, omega arith)

configure_image_layout-LaidOut_example : LaidOut 0x20_0000 hello 0x300 hello_layout
configure_image_layout-LaidOut_example =
    configure_image_layout-LaidOut 0x20_0000 hello 0x300 hello_layout hello-AreWords (omega arith)
      hello_accepted

copy_image_segments-Stays_example :
    (ws : List Write) × (copy_image_segments hello_layout hello 0x300 ≡ passed ws)
    × All (Stays 0x300 0x80_0000_0000 0x80_0000_2000) ws
copy_image_segments-Stays_example =
    copy_image_segments-Stays 0x20_0000 hello 0x300 hello_layout hello-AreWords (omega arith)
      hello_accepted
